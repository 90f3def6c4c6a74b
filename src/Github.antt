-- ===== src/Github.antt =====
-- packages/github: the calls of GitHub's API.
pub mod Failure
pub mod InMemoryTokenCache
pub mod TokenCache
