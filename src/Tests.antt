-- ===== src/Tests.antt =====
-- Test data, and the theorems at concrete inputs.
mod Data
mod Values
mod Packs
mod Vectors
mod Methods
mod Builders
mod Stores
mod Readers
mod States
mod Changes
