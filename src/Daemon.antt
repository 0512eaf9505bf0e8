-- ===== src/Daemon.antt =====
-- main.go and proccmd.go: the options, the initialisation, the signals and the control command of the
-- daemon, and Main. What the daemon's library is asked to do is recorded in order.
pub mod Init
pub mod Command
pub mod Main
pub mod Options
pub mod Laws
mod Tests
