-- ===== src/Store/Sqlite/Arguments.antt =====
-- internal/store/sqlite/adapter.go: the arguments of `buildWhere`, and the question marks they stand for.
use Prim.Native.Char.{Char, code}
use text.Mathlib.TextLemmas.{nil-append, cons-append}
use permission_aware_search.Common.{
  eqb, ◌==◌, if◌then◌else◌, Bool-cases, Option-cases, >>=-eq-ok, ok, length, length-append, All,
  mem, ℕ, zero, suc, ◌+◌, String, ◌≡◌, refl, sym, ap, ◌∙◌, subst, inl, inr, Bool, true, false,
  Option, some, List, [], ◌∷◌, ◌++◌, arith, eq_iff,
}
use permission_aware_search.Strings.{◌+++◌, to_lower, join, repeat, cons_unless, trim_right_of}
use permission_aware_search.Json.{Value, null, boolean, num, str, arr, obj, nil, cons}
use permission_aware_search.Schema.Registry.{native_column_for_field, Registry}
use permission_aware_search.Store.{Filter}
use permission_aware_search.Store.Sqlite.{
  comparison, values_args, question_marks, in_clause, clause, clauses, build_where, Arg, value,
}

-- the question marks of a text
unfoldable pub marks : String → ℕ
marks String.[] = 0
marks (String.◌∷◌ c s) = (if eqb (code c) b'?' then 1 else 0) + marks s

marks-append : (s t : String) → marks (s +++ t) ≡ marks s + marks t
unfolding marks
marks-append String.[] t = rw (nil-append t) (omega arith)
marks-append (String.◌∷◌ c s) t = rw (cons-append c s t) (omega (arith, marks-append s t))

marks-cons_unless : (c : Char) (t : String) → marks (cons_unless "," c t) ≡ marks (String.◌∷◌ c t)
unfolding marks
marks-cons_unless c String.[] = elim (Bool-cases (eqb (code c) b',')) [
  | inl comma ↦ rw comma (ground arith)
  | inr other ↦ rw other refl
]
marks-cons_unless c (String.◌∷◌ d t) = refl

marks-trim_right_of : (s : String) → marks (trim_right_of "," s) ≡ marks s
unfolding marks trim_right_of
marks-trim_right_of String.[] = refl
marks-trim_right_of (String.◌∷◌ c s) =
    marks-cons_unless c (trim_right_of "," s) ∙ omega (arith, marks-trim_right_of s)

marks-repeat : (n : ℕ) → marks (repeat "?," n) ≡ n
unfolding repeat marks
marks-repeat zero = refl
marks-repeat (suc n) = rw (marks-append "?," (repeat "?," n)) (omega (arith, marks-repeat n))

marks-question_marks : (n : ℕ) → marks (question_marks n) ≡ n
marks-question_marks n = marks-trim_right_of (repeat "?," n) ∙ marks-repeat n

marks-if :
    (b : Bool) (one symbol : String) (rest : Option String)
    → marks one ≡ 1
    → (rest ≡ some symbol → marks symbol ≡ 1)
    → (if b then some one else rest) ≡ some symbol
    → marks symbol ≡ 1
marks-if true one symbol rest single later h = cc
marks-if false one symbol rest single later h = later h

marks-comparison : (op symbol : String) → comparison op ≡ some symbol → marks symbol ≡ 1
unfolding marks
marks-comparison op symbol = marks-if (op == "eq") _ symbol _ refl (
    marks-if (op == "neq") _ symbol _ refl (
      marks-if (op == "gt") _ symbol _ refl (
        marks-if (op == "gte") _ symbol _ refl (
          marks-if (op == "lt") _ symbol _ refl (
            marks-if (op == "lte") _ symbol _ refl
              (marks-if (op == "like") _ symbol _ refl (λ h. cc)))))))

comparison_not_in :
    (op symbol : String) → comparison (to_lower op) ≡ some symbol → (to_lower op == "in") ≡ false
comparison_not_in op symbol h = elim (Bool-cases (to_lower op == "in")) [
  | inl e ↦ let none_here = ap comparison ((eq_iff (to_lower op) "in").0 e) in absurd cc
  | inr e ↦ e
]

-- the values that a filter gives the statement
abbrev pub members : Value → List Arg
members (arr vs) = values_args vs
members null = []
members (boolean b) = []
members (num n) = []
members (str s) = []
members (obj fs) = []

abbrev pub filter_args : Filter → List Arg
filter_args f = if to_lower f.op == "in" then members f.value else value f.value ∷ []

abbrev pub all_args : List Filter → List Arg
all_args [] = []
all_args (f ∷ filters) = filter_args f ++ all_args filters

in_clause-eq-some :
    (column : String) (v : Value) (text : String) (args : List Arg)
    → in_clause column v ≡ some (text, args)
    → (args ≡ members v) × (marks text ≡ marks column + length args)
in_clause-eq-some column (arr (cons v vs)) text args h =
    let n = length (values_args (cons v vs)) in
    let parts : marks (column +++ " IN (" +++ question_marks n +++ ")") ≡ marks column + n =
      rw
        (
          marks-append column (" IN (" +++ question_marks n +++ ")"),
          marks-append " IN (" (question_marks n +++ ")"),
          marks-append (question_marks n) ")",
          marks-question_marks n,
        )
        (unfold marks in omega arith) in
    let same_text : text ≡ column +++ " IN (" +++ question_marks n +++ ")" = cc in
    let same_args : args ≡ values_args (cons v vs) = cc in
    (same_args, ap marks same_text ∙ parts ∙ ap (λ x. marks column + length x) (sym same_args))
in_clause-eq-some column (arr nil) text args h = cc
in_clause-eq-some column null text args h = cc
in_clause-eq-some column (boolean b) text args h = cc
in_clause-eq-some column (num n) text args h = cc
in_clause-eq-some column (str s) text args h = cc
in_clause-eq-some column (obj fs) text args h = cc

marks-join :
    (text : String) (texts : List String)
    → marks (join (text ∷ texts) " AND ") ≡ marks text + marks (join texts " AND ")
unfolding join
marks-join text [] = unfold marks in omega arith
marks-join text (next ∷ texts) =
    let rest = join (next ∷ texts) " AND " in
    rw (marks-append text (" AND " +++ rest), marks-append " AND " rest)
      (unfold marks in omega arith)

module _ (reg : Registry) (allowed : List String) where
  clause-eq-ok :
      (f : Filter) (text : String) (args : List Arg)
      → clause reg allowed f ≡ ok (text, args)
      → (column : String) × (native_column_for_field reg f.field ≡ some column)
        × (args ≡ filter_args f)
        × (marks text ≡ marks column + length args)
  unfolding clause
  clause-eq-ok f text args h = elim (Bool-cases (mem f.field allowed)) [
    | inr refused ↦ absurd (ground arith)
    | inl listed ↦ elim (Option-cases (native_column_for_field reg f.field)) [
      | inl missing ↦ absurd (ground arith)
      | inr (column, found) ↦ elim (Option-cases (comparison (to_lower f.op))) [
        | inr (symbol, simple) ↦
            let given : ok (column +++ symbol, value f.value ∷ []) ≡ ok (text, args) =
              rw (listed, found, simple) at h in
            let same_text : text ≡ column +++ symbol = cc in
            let same_args : args ≡ value f.value ∷ [] = cc in
            let one = marks-append column symbol in
            let single = marks-comparison (to_lower f.op) symbol simple in
            (
              column,
              found,
              rw (comparison_not_in f.op symbol simple) same_args,
              ap marks same_text
                  ∙ omega (arith, one, single)
                  ∙ ap (λ x. marks column + length x) (sym same_args),
            )
        | inl other ↦ elim (Bool-cases (to_lower f.op == "in")) [
          | inr unknown ↦ absurd (ground arith)
          | inl is_in ↦ elim (Option-cases (in_clause column f.value)) [
            | inl bad ↦ absurd (ground arith)
            | inr (c, good) ↦
                let given : ok c ≡ ok (text, args) = rw (listed, found, other, is_in, good) at h in
                let whole : in_clause column f.value ≡ some (text, args) = cc in
                let (same_args, count) = in_clause-eq-some column f.value text args whole in
                (column, found, rw is_in same_args, count)
          ]
        ]
      ]
    ]
  ]

  -- no column that the filters name has a question mark of its own
  abbrev pub Clean : List Filter → Type 0
  Clean filters =
      All
        (λ f.
          (column : String) → native_column_for_field reg f.field ≡ some column → marks column ≡ 0)
        filters

  clauses-eq-ok :
      (filters : List Filter) (texts : List String) (args : List Arg)
      → Clean filters
      → clauses reg allowed filters ≡ ok (texts, args)
      → (args ≡ all_args filters) × (marks (join texts " AND ") ≡ length args)
  unfolding clauses join marks
  clauses-eq-ok [] texts args c h =
      let no_texts : [] ≡ texts = cc in
      let no_args : [] ≡ args = cc in
      (
        sym no_args,
        subst (λ xs. marks (join xs " AND ") ≡ length args) no_texts
            (subst (λ xs. 0 ≡ length xs) no_args refl),
      )
  clauses-eq-ok (f ∷ filters) texts args (c, cs) h =
      let ((text, own), first, h') = >>=-eq-ok (clause reg allowed f) _ h in
      let ((texts', rest), later, h'') = >>=-eq-ok (clauses reg allowed filters) _ h' in
      let (column, found, same, count) = clause-eq-ok f text own first in
      let (same', count') = clauses-eq-ok filters texts' rest cs later in
      let clean = c column found in
      let both_texts : text ∷ texts' ≡ texts = cc in
      let both_args : own ++ rest ≡ args = cc in
      let added = marks-join text texts' in
      let sizes = length-append own rest in
      (
        sym both_args ∙ cc (same, same'),
        subst (λ xs. marks (join xs " AND ") ≡ length args) both_texts
            (subst (λ xs. marks (join (text ∷ texts') " AND ") ≡ length xs) both_args
              (omega (arith, clean, added, sizes, count, count'))),
      )

  -- Where `buildWhere` succeeds, its arguments are the values of the filters in their order, those of a list
  -- one by one, and its text has as many question marks as there are arguments, if no column of the filters
  -- has one in its name.
  pub build_where-args :
      (filters : List Filter) (text : String) (args : List Arg)
      → Clean filters
      → build_where reg allowed filters ≡ ok (text, args)
      → (args ≡ all_args filters) × (marks text ≡ length args)
  unfolding build_where marks
  build_where-args [] text args c h =
      let no_text : "" ≡ text = cc in
      let no_args : [] ≡ args = cc in
      (
        sym no_args,
        subst (λ t. marks t ≡ length args) no_text (subst (λ xs. 0 ≡ length xs) no_args refl),
      )
  build_where-args (f ∷ filters) text args c h =
      let ((texts, given), made, h') = >>=-eq-ok (clauses reg allowed (f ∷ filters)) _ h in
      let (same, count) = clauses-eq-ok (f ∷ filters) texts given c made in
      let whole : " AND " +++ join texts " AND " ≡ text = cc in
      let all_of : given ≡ args = cc in
      let added = marks-append " AND " (join texts " AND ") in
      (
        sym all_of ∙ same,
        subst (λ t. marks t ≡ length args) whole
            (subst (λ xs. marks (" AND " +++ join texts " AND ") ≡ length xs) all_of
              (omega (arith, added, count))),
      )
