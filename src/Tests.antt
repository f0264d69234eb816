-- ===== src/Tests.antt =====
-- Examples: the theorems at concrete inputs.
mod Copies
mod Overlays
mod Referees
mod Forgers
mod Sessions
mod Codecs
mod Events
mod Areas
mod Cache
mod Repository
mod Games
mod Store
mod Rulings
mod Jobs
mod Chains
mod Keepers
mod Shards
mod Numbers
mod Packages
mod Grids
