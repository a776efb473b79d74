-- ===== src/Tests.antt =====
-- The theorems at concrete inputs, and tests of the definitions.
mod Data
mod Cache
mod Policy
mod Search
mod Semantic
mod Parser
mod Local
mod Gateway
mod Http
mod Identifier
mod Requests
mod Contracts
mod Store
