-- ===== src/Lib.antt =====
-- The routing core of the gateway: which account serves a request, what an upstream error does to
-- an account, how the account row is written, what a request costs, which alerts fire, and which
-- response a caller may read back.
--
-- Parts and files. A request is given an account by the pool (Balancer). The pool passes over the
-- accounts that their recorded state withholds, prefers the least loaded, and is told by the
-- connection tracker (Tracker) how many requests each account carries. An upstream error is turned
-- by the classifier (Errors) and the policy (Policy) into a verdict that is written on the account
-- row (Account), per-model verdicts into cooldown maps (Cooldown). A stored response is kept by
-- ResponseStore, and refreshes of credentials take their leases from RefreshQueue.
-- - Errors: internal/errors/classify.go. classify_account_status and classify_upstream_error are
--   ClassifyAccountStatus and ClassifyUpstreamError; Errors.Markers holds the searches in a text.
-- - Policy: internal/accountpolicy/policy.go. Verdict and Apply in Policy.Verdict, AccountHeld and
--   the windows in Policy.Hold, Classify in Policy.Classify; the other modules hold proofs.
-- - Account: the fields of internal/store/store.go and internal/store/quota_snapshots.go that
--   routing reads or writes.
-- - Cooldown: internal/store/account_cooldown.go, and its proofs in the modules below.
-- - Channel: the definitions of internal/channel/channel.go that the pool reads.
-- - Balancer: internal/loadbalancer/loadbalancer.go. State: the pool's fields, the cache and the
--   clearing of a status, with ClaimGrokPaidQuotaProbe of internal/store/redis_store.go.
--   Available: isAccountAvailable. Choose: selectAccountWithTracker. Select: the scan and
--   GetNextAccountExcludingByChannelWithTrackerFilter. Mark: MarkAccountStatus and
--   PersistAppliedAccountStatus. Agree: the pool beside AccountHeld. The
--   modules below Choose and Select hold proofs.
-- - Tracker: MemoryConnTracker of internal/loadbalancer/conn_tracker.go, one operation at a time;
--   Tracker.Interleaved: the same methods as atomic operations, each a step, of goroutines that
--   interleave. A goroutine asks by Acquire or by TryAcquire, with any limit: which of them callers use
--   for an account is a parameter, since handlers choose by the limit in force
--   (internal/handler/handler_helpers.go), and a limit binds only where no caller uses Acquire.
-- - ResponseStore: internal/store/memory_response_store.go.
-- - RefreshQueue: internal/refreshqueue/refreshqueue.go, the leases of credential refreshes, and the
--   goroutines that call WithLease.
-- - Document: the whole account row (Fields), accountPatch of internal/store/account_merge.go and
--   UpdateAccount of internal/store/redis_store.go. Patches: the credential patches, quality and
--   quota writes of the same file, with internal/store/credential_patch.go. Atomic:
--   updateAccountAtomic, by writers that interleave; a writer that returns without an error also
--   says why, which the code does not tell its caller. The other modules hold proofs.
-- - Alerting: internal/alerting/alerting.go. Thresholds: Rules and its validation; the other
--   modules hold proofs.
-- - Pricing: internal/pricing/pricing.go. Table: the prices and the families of names; the other
--   modules hold proofs.
-- - TeamCooldown: internal/grok/team_cooldown.go, with the shared backend as a parameter.
-- - Version: internal/selfupdate/version.go.
-- - Prelude: numbers, texts, times and maps; Tests: the theorems at concrete inputs.
--
-- How the model reads the code. A text is its Unicode code points. Lower-casing and folding are
-- written out for ASCII and for the three other letters that fold to ASCII; the texts that the code
-- searches for are ASCII. A Time is its nanoseconds after the zero time, a Duration a signed count
-- of nanoseconds, and Sub saturates as in Go. An int64 counter wraps around. An id is a natural
-- number, since ids are only compared. A float64 field of a row is a count of millionths, and the
-- load score is a fraction: the rounded quotients of the code compare as the fractions do while the
-- connections and the weights stay below 2 ^ 25, far above any limit in use. A map is an
-- association list, visited in its order. Accounts are shared by pointer, so the pool has a heap
-- and its lists hold addresses. An operation reads the clock once.
-- A regular expression of the price rules is written out as a matcher. An alert's formatted title or
-- detail is a constructor with the values that go into it.
-- Parameters: what a writer does to the row and reflect.DeepEqual, in Document.Atomic, where WATCH
-- and EXEC of Redis are a count of the writes; the random index, the connection counts, the caller's
-- filter, the rows that the store loads and the clock. The hypothesis on the random index is that it is below its bound.
-- Fuel: the loop over the windows of a large pool runs for one round more than the number of whole
-- windows, so it reaches the end of the list.
-- Locks: an operation under a mutex is one step. Only the tracker and the row updates, which use
-- atomic operations and transactions instead, have the finer steps.
--
-- The eight attempts of updateAccountAtomic are the source's own bound.
--
-- Not modelled: the reservation of a budget from a JSON body; the rate limiter of
-- internal/middleware/ratelimit.go, whose float64 rounding decides which attempt is let through; HTTP,
-- streaming and the protocol conversion of the providers, Redis and its scripts, logging, configuration, the admin pages, and the persistence of a status, of which only
-- the row handed to the store is recorded.
pub mod Prelude
pub mod Account
pub mod Alerting
pub mod Pricing
pub mod Errors
pub mod Cooldown
pub mod Policy
pub mod Document
pub mod Channel
pub mod Balancer
pub mod Tracker
pub mod ResponseStore
pub mod RefreshQueue
pub mod TeamCooldown
pub mod Version
pub mod Tests
