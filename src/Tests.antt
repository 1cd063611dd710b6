-- ===== src/Tests.antt =====
-- The theorems applied to concrete runs of the service, with the data that they share.
mod Data
mod Tables
mod Statements
mod Services
mod Rpcs
mod Outcomes
mod Runs
mod Orders
mod Launches
mod Leases
mod Keys
mod Deployments
mod Messages
mod Calls
mod Settings
mod Probes
mod Clients
