-- ===== src/Examples.antt =====
-- Runs of the models on concrete values, and a server for them.
mod Clocks
mod Cluster
mod Crons
mod Loaded
mod Lock
mod Recurring
mod Workers
mod Replaced
mod Requests
mod Scans
mod Server
mod Servers
mod Services
mod Setups
mod Tasks
mod Updates
