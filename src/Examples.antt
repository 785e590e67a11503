-- ===== src/Examples.antt =====
-- Runs of the definitions on concrete inputs.
mod Money
mod Installation
mod Data
mod Stores
mod Runs
mod Calls
mod Jobs
mod Normalizer
mod Provider
mod Loading
mod Boot
mod Announcing
