-- ===== src/Examples.antt =====
-- Runs of the models at concrete inputs, and the theorems at inputs that meet their hypotheses.
mod Addresses
mod Breaker
mod Caches
mod Buckets
mod Clients
mod Helpers
mod Machines
mod Pools
mod Ratio
mod Requests
mod Retries
mod Sampled
mod Stores
mod Tables
mod Windows
