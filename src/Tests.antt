-- ===== src/Tests.antt =====
-- Runs of the broker on small inputs, in a small world.
pub mod Sample
mod Rotations
mod Secrets
mod Handles
mod Reconciles
mod Tokens
mod Removals
mod Deliveries
mod Boots
mod Hazards
mod Cycles
mod Copies
