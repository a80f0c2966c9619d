-- ===== src/Scenarios.antt =====
-- Concrete versions, clusters and lists, at which the theorems of the other files apply.
mod Library
mod Values
mod Update
mod Match
mod DataPlane
mod Admission
mod Control
mod Deployment
mod Reconcile
mod Takeover
mod Merge
