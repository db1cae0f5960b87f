-- ===== src/Tests.antt =====
-- Runs of the model and the theorems at concrete inputs.
mod Memory
mod Toy
mod Paths
mod Documents
mod Bodies
mod Manifests
mod Tables
mod Runs
mod Catalogs
mod Migrations
mod Programs
mod Swaps
mod Buckets
mod Hits
