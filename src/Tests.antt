-- ===== src/Tests.antt =====
-- A sample of the outside and of the state, and the theorems applied to it.
mod Sample
mod Jobs
mod Devices
mod Accounts
mod Nodes
mod Requests
mod Start
mod Agents
mod Tables
