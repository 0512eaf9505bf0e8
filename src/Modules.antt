-- ===== src/Modules.antt =====
-- handlers/rproxy/module/: the modules that the proxy comes with.
pub mod SetHeader
pub mod ProxyPass
pub mod Directors
mod Tests
