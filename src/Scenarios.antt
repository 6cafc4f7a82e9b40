-- ===== src/Scenarios.antt =====
-- Concrete rooms, clusters and ports: tests of the definitions, and the theorems applied to them.
mod Data
mod Passes
mod Decisions
mod Starts
mod Allocations
mod Rows
mod Tables
mod Pods
mod Sweeps
mod Gates
mod Strokes
mod Rosters
mod Queues
mod Lobbies
