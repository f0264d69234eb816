-- ===== src/Network.antt =====
-- The network (core/src/network), as far as it decides without sockets.
pub mod Session
pub mod Shard
pub mod Message
pub mod Job
