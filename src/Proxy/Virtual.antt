-- ===== src/Proxy/Virtual.antt =====
-- handlers/rproxy/vtransport.go: a transport that spreads the requests over named upstreams, and the
-- pins that keep a client with a backend. The library of upstreams, net/url and the JSON parser are
-- parameters.
pub mod Pins
pub mod Build
pub mod Laws
mod Tests
