-- ===== src/Tests.antt =====
-- Runs of the theorems on concrete inputs.
mod Fixtures
mod Labels
mod Policy
mod Bindings
mod Broker
mod Providence
mod Gateway
mod Receipts
