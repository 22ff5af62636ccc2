-- ===== src/Tests.antt =====
-- The theorems at concrete inputs, and the values that they are run on.
mod Samples
mod Policy
mod Cooldown
mod Balancer
mod Tracker
mod ResponseStore
mod RefreshQueue
mod Alerting
mod Pricing
mod Document
mod TeamCooldown
mod Version
