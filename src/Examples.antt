-- ===== src/Examples.antt =====
-- Tests on concrete inputs, and instances of the theorems.
mod Frontiers
mod Collection
mod Events
mod RoundTrips
mod Queues
mod Devices
mod Bootstraps
mod Inputs
mod Caches
mod Searches
mod Metadata
mod Endpoints
