-- ===== src/Cache.antt =====
-- rproxymod/cache.go and handlers/rproxy/cache/: the cache that proxies share.
pub mod Null
pub mod Ybc
pub mod New
