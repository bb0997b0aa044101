-- ===== src/Tests.antt =====
-- A world in memory that meets the laws of the outside code, runs of the model in it, and the
-- theorems at concrete inputs.
mod Settings
mod Clients
mod Stack
mod World
mod Ciphers
mod Posts
mod Reports
mod Sessions
mod Routes
mod Headers
mod Hubs
mod Feeds
mod Limits
mod Servers
mod Processes
mod Entrances
mod Requests
