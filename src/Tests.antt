-- ===== src/Tests.antt =====
-- Runs of the definitions at small inputs, and each theorem at one of them.
mod Trees
mod Heaps
mod Tables
mod Buffers
mod Requests
mod Responses
mod Links
mod Zsets
mod Databases
mod Pools
mod Connections
mod Times
mod Clients
