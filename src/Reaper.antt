-- ===== src/Reaper.antt =====
-- http.go, reaperConnStateCallback: what the server does to a connection when its state changes. The
-- timer and the activity timeout of a connection belong to another library, which is represented by
-- whether they are switched on; it switches nothing on a connection that is closed.
mod Tests
use ozone.Prelude.{ℕ, ◌≡◌, refl, Bool, true, false, not, ◌&&◌, ◌||◌, if◌then◌else◌, nat_eq, arith}

-- http.ConnState
pub data ConnState : Type 0 where
  state_new : ConnState
  state_active : ConnState
  state_idle : ConnState
  state_hijacked : ConnState
  state_closed : ConnState

-- A connection: whether the timer that closes it runs, whether a lack of activity closes it, and
-- whether it is closed.
pub record Conn : Type 0 where
  pub timer : Bool
  pub io_timeout : Bool
  pub closed : Bool

abbrev set_timer : ℕ → Bool → Conn → Conn
set_timer to b c = if nat_eq to 0 then c else record c { timer = b }

-- reaper.IOActivityTimeout, whose error the callback drops: it leaves a closed connection alone.
abbrev io_activity_timeout : Bool → Conn → Conn
io_activity_timeout b c = if c.closed then c else record c { io_timeout = b }

unfoldable pub reaper_conn_state_callback : ℕ → Conn → ConnState → Conn
reaper_conn_state_callback to c state_new = set_timer to true c
reaper_conn_state_callback to c state_active = io_activity_timeout true (set_timer to false c)
reaper_conn_state_callback to c state_idle = io_activity_timeout false c
reaper_conn_state_callback to c state_hijacked = io_activity_timeout false c
reaper_conn_state_callback to c state_closed = io_activity_timeout false c

-- The changes of state that net/http documents.
pub data Next : ConnState → ConnState → Type 0 where
  new_active : Next state_new state_active
  new_closed : Next state_new state_closed
  active_idle : Next state_active state_idle
  active_hijacked : Next state_active state_hijacked
  active_closed : Next state_active state_closed
  idle_active : Next state_idle state_active
  idle_closed : Next state_idle state_closed

abbrev is_active : ConnState → Bool
is_active state_active = true
is_active s = false

-- The connections that the callback can have left in a state, with whether they have been active.
-- The timer, the reaper or net/http can close a connection at any time.
pub data Reaches (to : ℕ) : ConnState → Bool → Conn → Type 0 where
  accepted : Reaches to state_new false (
      reaper_conn_state_callback to
        (record { timer = false; io_timeout = false; closed = false })
        state_new)
  changed :
      {s t : ConnState} {b : Bool} {c : Conn}
      → Reaches to s b c
      → Next s t
      → Reaches to t (b || is_active t) (reaper_conn_state_callback to c t)
  shut :
      {s : ConnState} {b : Bool} {c : Conn}
      → Reaches to s b c
      → Reaches to s b (record c { closed = true })

-- Whether a connection in the state can, or cannot, have been active.
abbrev can_have_been : ConnState → Bool → Bool
can_have_been state_new b = not b
can_have_been state_closed b = true
can_have_been s b = b

-- The timer runs exactly if the connection has not been active, which is so of a new one and not of
-- one that is active, idle or hijacked; and unless the connection is closed, the activity timeout is
-- on exactly if it is active.
abbrev pub IsGuarded : ConnState → Bool → Conn → Type 0
IsGuarded s b c =
    (can_have_been s b ≡ true)
    × (c.timer ≡ not b)
    × ((not c.closed && (if is_active s then not c.io_timeout else c.io_timeout)) ≡ false)

step-IsGuarded :
    (to : ℕ) (s t : ConnState) (b : Bool) (c : Conn)
    → nat_eq to 0 ≡ false
    → Next s t
    → IsGuarded s b c
    → IsGuarded t (b || is_active t) (reaper_conn_state_callback to c t)
unfolding reaper_conn_state_callback
step-IsGuarded to s t b c n new_active (h, g, i) = (ground arith, ground arith, ground arith)
step-IsGuarded to s t b c n new_closed (h, g, i) = (ground arith, ground arith, ground arith)
step-IsGuarded to s t b c n active_idle (h, g, i) = (ground arith, ground arith, ground arith)
step-IsGuarded to s t b c n active_hijacked (h, g, i) = (ground arith, ground arith, ground arith)
step-IsGuarded to s t b c n active_closed (h, g, i) = (ground arith, ground arith, ground arith)
step-IsGuarded to s t b c n idle_active (h, g, i) = (ground arith, ground arith, ground arith)
step-IsGuarded to s t b c n idle_closed (h, g, i) = (ground arith, ground arith, ground arith)

-- With a timeout that is not zero, whatever the documented changes of state and whenever the
-- connection is closed: the timer runs on a new connection, and on a connection in the state closed
-- that was never active, and on no other; unless the connection is closed, the activity timeout is on
-- exactly while its state is active.
pub reaches-IsGuarded :
    (to : ℕ) (s : ConnState) (b : Bool) (c : Conn)
    → nat_eq to 0 ≡ false
    → Reaches to s b c
    → IsGuarded s b c
unfolding reaper_conn_state_callback
reaches-IsGuarded to s b c n accepted = rw n (refl, refl, refl)
reaches-IsGuarded to t b c n (changed {s = s} {b = a} {c = d} r step) =
    step-IsGuarded to s t a d n step (reaches-IsGuarded to s a d n r)
reaches-IsGuarded to s b c n (shut {c = d} r) =
    let (h, g, i) = reaches-IsGuarded to s b d n r in (h, g, refl)
