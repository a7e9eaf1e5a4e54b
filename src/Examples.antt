-- ===== src/Examples.antt =====
-- Runs of the models on concrete data.
mod Values
mod Requests
mod Hosts
mod Stores
mod Recoveries
mod Reports
mod Channel
