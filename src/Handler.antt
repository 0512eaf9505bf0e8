-- ===== src/Handler.antt =====
-- handler.go: the resolution of handlers by name, with cycle detection and memoisation.
-- A registered HandlerConfigureFunc is a tree of the look-ups that it makes, in their order, and
-- of what it returns in the end. Plugins, the proxy's constructor and the parser of a redirect's
-- configuration are an environment.
pub mod Registry
pub mod Resolve
pub mod Walk
pub mod Termination
mod Keeps
pub mod Memo
pub mod Once
pub mod Spec
mod Tests
