-- ===== src/Reaper/Tests.antt =====
-- A connection that is accepted, active, idle and active again, and one that the timer closes.
use ozone.Prelude.{refl, true, false}
use ozone.Reaper.{
  state_active, state_closed, Conn, reaper_conn_state_callback, new_active, active_idle,
  idle_active, new_closed, Reaches, accepted, changed, shut, IsGuarded, reaches-IsGuarded,
}

abbrev busy : Conn
busy = record { timer = false; io_timeout = true; closed = false }

served : Reaches 30 state_active true busy
unfolding reaper_conn_state_callback
served = changed (changed (changed accepted new_active) active_idle) idle_active

slow : Reaches 30 state_closed false (record { timer = true; io_timeout = false; closed = true })
unfolding reaper_conn_state_callback
slow = changed (shut accepted) new_closed

reaches-IsGuarded_example : IsGuarded state_active true busy
reaches-IsGuarded_example = reaches-IsGuarded 30 state_active true busy refl served
