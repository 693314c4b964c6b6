-- ===== src/HashMap.antt =====
-- asco/concurrency/hash_map.h: the concurrent hash table with open addressing.
mod Errors
mod Defs
mod Probe
mod Inv
mod Walk
mod Search
mod Grow
mod Insert
mod Change
mod Get
mod Remove
mod Rehash
mod Api
mod Calls
mod Lookups
mod Destroy
mod Empty
mod Examples
