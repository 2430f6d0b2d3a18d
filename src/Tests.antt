-- ===== src/Tests.antt =====
-- Test data and the witnesses of the headline theorems: each is applied at an input where its
-- hypotheses hold.
mod Encoding
mod Chunks
mod Caches
mod Scopes
mod Stores
mod Memories
mod Profiles
mod Sessions
mod Retrievals
mod Plans
mod Ledgers
mod Forgetting
mod Transitions
mod Policies
