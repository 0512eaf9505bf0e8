-- ===== src/Proxy.antt =====
-- handlers/rproxy/ozoneproxy.go and orig_reverseproxy.go: the reverse proxy handler.
pub mod Hop
pub mod Serve
pub mod Original
pub mod Build
pub mod Virtual
pub mod Copy
pub mod Flush
pub mod Cancel
pub mod Full
pub mod V2
mod Tests
