-- ===== src/Agent.antt =====
-- The agent's working memory (protoprompt/agent): a hot set under a token budget, a cold store, a
-- manifest of what was evicted and an index of who defines what.
pub mod Item
pub mod Ids
pub mod Manifest
pub mod References
pub mod Memory
