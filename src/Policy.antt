-- ===== src/Policy.antt =====
-- internal/accountpolicy/policy.go: how one upstream result becomes an account state, and how long
-- that state withholds the account.
pub mod Verdict
pub mod Hold
pub mod Classify
pub mod Backoff
pub mod Release
pub mod Scopes
