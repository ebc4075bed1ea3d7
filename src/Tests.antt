-- ===== src/Tests.antt =====
-- Tests at concrete inputs, and for each result of the development an input at which its
-- hypotheses hold.
mod Fixtures
mod Wrappers
mod Backends
mod Facade
mod Listing
mod RateLimit
mod Locks
mod Refresh
mod Files
mod Nats
mod Sql
mod Redis
mod Fake
mod Memcached
mod Factory
