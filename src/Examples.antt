-- ===== src/Examples.antt =====
-- The theorems on concrete data.
mod Memory
mod Naming
mod Ownership
mod Publication
mod Creation
mod Lookups
mod Host
mod Data
mod Scenarios
mod Node
mod Process
mod Delivery
mod Names
