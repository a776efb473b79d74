-- ===== src/Store/Sqlite/Where.antt =====
-- internal/store/sqlite/adapter.go: what `buildWhere` makes of the filters. The text comes from fields
-- and operators, the arguments from the values.
use permission_aware_search.Common.{
  ◌==◌, if◌then◌else◌, ◌>>=◌, Bool-cases, Option-cases, Result, ok, err, length, mem, ℕ, zero, suc,
  String, ◌≡◌, refl, sym, ap, ◌∙◌, inl, inr, not, Option, none, some, List, [], ◌∷◌,
}
use permission_aware_search.Strings.{◌+++◌, to_lower, repeat, trim_right_of}
use permission_aware_search.Json.{Value, null, boolean, num, str, arr, obj, nil, cons}
use permission_aware_search.Schema.Registry.{native_column_for_field, Registry}
use permission_aware_search.Store.{Filter}
use permission_aware_search.Store.Sqlite.{
  comparison, values_args, question_marks, in_clause, clause, clauses, build_where, Arg,
}

-- the number of members of a list; `none` of any other value
abbrev pub shape : Value → Option ℕ
shape (arr vs) = some (length (values_args vs))
shape null = none
shape (boolean b) = none
shape (num n) = none
shape (str s) = none
shape (obj fs) = none

abbrev pub text_of {ℓ} : {A : Type ℓ} → Result (A × List Arg) → Result A
text_of (ok (text, args)) = ok text
text_of (err e) = err e

abbrev pub in_text : String → Option ℕ → Option String
in_text column none = none
in_text column (some zero) = none
in_text column (some (suc n)) = some (column +++ " IN (" +++ question_marks (suc n) +++ ")")

abbrev pub in_text_of : Option (String × List Arg) → Option String
in_text_of none = none
in_text_of (some (text, args)) = some text

in_clause-text :
    (column : String) (v : Value) → in_text_of (in_clause column v) ≡ in_text column (shape v)
in_clause-text column (arr (cons v vs)) = refl
in_clause-text column (arr nil) = refl
in_clause-text column null = refl
in_clause-text column (boolean b) = refl
in_clause-text column (num n) = refl
in_clause-text column (str s) = refl
in_clause-text column (obj fs) = refl

-- the filters agree in everything but the values, and these in the lengths of lists
abbrev pub Alike : List Filter → List Filter → Type 0
Alike [] [] = Unit
Alike [] (g ∷ gs) = ⊥
Alike (f ∷ fs) [] = ⊥
Alike (f ∷ fs) (g ∷ gs) =
    (f.field ≡ g.field) × (f.op ≡ g.op) × (shape f.value ≡ shape g.value) × Alike fs gs

text_of->>= {ℓ κ} :
    {A : Type ℓ} {B : Type κ} (m n : Result (A × List Arg))
    (f g : A × List Arg → Result (B × List Arg))
    → text_of m ≡ text_of n
    → ((a : A) (x y : List Arg) → text_of (f (a, x)) ≡ text_of (g (a, y)))
    → text_of (m >>= f) ≡ text_of (n >>= g)
text_of->>= (ok (a, x)) (ok (b, y)) f g e h =
    let same : a ≡ b = cc in h a x y ∙ ap (λ c. text_of (g (c, y))) same
text_of->>= (ok (a, x)) (err n) f g e h = cc
text_of->>= (err m) (ok (b, y)) f g e h = cc
text_of->>= (err m) (err n) f g e h = cc

module _ (reg : Registry) (allowed : List String) where
  -- the text of one clause, from the field, the operator and the shape of the value
  unfoldable clause_text : String → String → Option ℕ → Result String
  unfolding mem native_column_for_field to_lower repeat trim_right_of
  clause_text named op n =
      if not (mem named allowed)
      then err ("unsupported filter field: " +++ named)
      else elim (native_column_for_field reg named) [
        | none ↦ err ("unsupported filter field: " +++ named)
        | some column ↦ elim (comparison (to_lower op)) [
          | some symbol ↦ ok (column +++ symbol)
          | none ↦
              if to_lower op == "in"
              then elim (in_text column n) [
                | some text ↦ ok text
                | none ↦ err ("invalid in operator value for field " +++ named)
              ]
              else err ("unsupported operator: " +++ op)
        ]
      ]

  clause-clause_text :
      (f : Filter) → text_of (clause reg allowed f) ≡ clause_text f.field f.op (shape f.value)
  unfolding clause clause_text
  clause-clause_text f = elim (Bool-cases (mem f.field allowed)) [
    | inr refused ↦ rw refused refl
    | inl listed ↦ elim (Option-cases (native_column_for_field reg f.field)) [
      | inl missing ↦ rw (listed, missing) refl
      | inr (column, found) ↦ elim (Option-cases (comparison (to_lower f.op))) [
        | inr (symbol, simple) ↦ rw (listed, found, simple) refl
        | inl other ↦ elim (Bool-cases (to_lower f.op == "in")) [
          | inr unknown ↦ rw (listed, found, other, unknown) refl
          | inl is_in ↦
              let text = in_clause-text column f.value in
              elim (Option-cases (in_clause column f.value)) [
                | inl bad ↦ rw (listed, found, other, is_in, bad, sym text ∙ ap in_text_of bad) refl
                | inr (c, good) ↦
                    rw (listed, found, other, is_in, good, sym text ∙ ap in_text_of good) refl
              ]
        ]
      ]
    ]
  ]

  clauses-text :
      (fs gs : List Filter)
      → Alike fs gs
      → text_of (clauses reg allowed fs) ≡ text_of (clauses reg allowed gs)
  unfolding clauses
  clauses-text [] [] h = refl
  clauses-text [] (g ∷ gs) h = absurd h
  clauses-text (f ∷ fs) [] h = absurd h
  clauses-text (f ∷ fs) (g ∷ gs) (same_field, same_op, same_shape, rest) =
      let same_text : text_of (clause reg allowed f) ≡ text_of (clause reg allowed g) =
        cc (clause-clause_text f, clause-clause_text g, same_field, same_op, same_shape) in
      text_of->>= _ _ _ _ same_text
        (λ text x y. text_of->>= _ _ _ _ (clauses-text fs gs rest) (λ texts x y. refl))

  -- The SQL text of the WHERE clause, or the error, does not depend on the values of the filters: filters
  -- of the same fields and operators, and with lists of the same lengths, give the same.
  pub build_where-text :
      (fs gs : List Filter)
      → Alike fs gs
      → text_of (build_where reg allowed fs) ≡ text_of (build_where reg allowed gs)
  unfolding build_where
  build_where-text [] [] h = refl
  build_where-text [] (g ∷ gs) h = absurd h
  build_where-text (f ∷ fs) [] h = absurd h
  build_where-text (f ∷ fs) (g ∷ gs) h =
      text_of->>= _ _ _ _ (clauses-text (f ∷ fs) (g ∷ gs) h) (λ texts x y. refl)
