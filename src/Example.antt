-- ===== src/Example.antt =====
-- A platform that meets the assumptions (Pairs for its buckets, Concrete), a run of the service on it
-- (Scenario), a rate limiter (Limiting), requests
-- (Requests, Forwarding), settings (Settings), and each property at an input of it.
mod Pairs
mod Concrete
mod Scenario
mod Witnesses
mod Tickets
mod Upkeep
mod Limiting
mod Requests
mod Forwarding
mod Settings
mod Paths
mod Booting
mod Pages
mod Traffic
mod Racing
mod Attempts
mod Files
mod Secured
mod Logged
mod Serving
mod Configuring
mod Texts
