-- ===== src/Balancer.antt =====
-- internal/loadbalancer/loadbalancer.go: the pool that hands an account to every request.
pub mod State
pub mod Available
pub mod Choose
pub mod Agree
pub mod Mark
pub mod Select
