-- ===== src/Http.antt =====
-- What the program uses of Go's net/http, net/textproto and net: header maps and host:port pairs.
pub mod Header
pub mod HostPort
