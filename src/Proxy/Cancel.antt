-- ===== src/Proxy/Cancel.antt =====
-- ozoneproxy.go, ServeHTTP, for a response writer that can tell when the client is gone: the
-- goroutine that waits for the notice and cancels the request's context, and the test for the notice
-- after a module has answered. The channel of CloseNotify receives at most one value.
pub mod Laws
mod Tests
use ozone.Prelude.{◌≡◌, Bool, true, false}

-- The goroutine: at the select, after the receipt of the notice, and after its end, with whether it
-- had received the notice.
pub data Watcher : Type 0 where
  selecting : Watcher
  notified : Watcher
  ended : Bool → Watcher

-- ServeHTTP: before the answer of a module or the round trip, at the test for the notice, at the
-- response, at the return that the test leads to, and after the return, with whether the response
-- was skipped.
pub data Serving : Type 0 where
  asking : Serving
  testing : Serving
  responding : Serving
  skipping : Serving
  returned : Bool → Serving

pub record ServeCall : Type 0 where
  -- Whether the client is gone, and whether its notice lies in the channel.
  pub gone : Bool
  pub notice : Bool
  pub cancelled : Bool
  pub watcher : Watcher
  pub serving : Serving

unfoldable pub serve_call : ServeCall
serve_call = record {
  gone = false;
  notice = false;
  cancelled = false;
  watcher = selecting;
  serving = asking;
}

-- The server: the client leaves, and the server cancels the context from which that of the request
-- is derived.
unfoldable pub leave : ServeCall → ServeCall
leave s = record s { gone = true; notice = true }

unfoldable pub cancel_parent : ServeCall → ServeCall
cancel_parent s = record s { cancelled = true }

-- The two cases of the select of the goroutine, and its call of cancel.
unfoldable pub take_notice : ServeCall → ServeCall
take_notice s = record s { notice = false; watcher = notified }

unfoldable pub call_cancel : ServeCall → ServeCall
call_cancel s = record s { cancelled = true; watcher = ended true }

unfoldable pub take_done : ServeCall → ServeCall
take_done s = record s { watcher = ended false }

-- A module answers or not.
unfoldable pub answer : ServeCall → ServeCall
answer s = record s { serving = testing }

unfoldable pub turn_none : ServeCall → ServeCall
turn_none s = record s { serving = responding }

-- The select at the test: the notice, or the default.
unfoldable pub find_notice : ServeCall → ServeCall
find_notice s = record s { notice = false; serving = skipping }

unfoldable pub find_none : ServeCall → ServeCall
find_none s = record s { serving = responding }

-- The return, with the deferred call of cancel.
unfoldable pub return_from : Bool → ServeCall → ServeCall
return_from skipped s = record s { cancelled = true; serving = returned skipped }

pub data CallStep (s : ServeCall) : ServeCall → Type 0 where
  leaves : s.gone ≡ false → CallStep s (leave s)
  drops : s.gone ≡ true → CallStep s (cancel_parent s)
  takes : s.watcher ≡ selecting → s.notice ≡ true → CallStep s (take_notice s)
  cancels : s.watcher ≡ notified → CallStep s (call_cancel s)
  stops : s.watcher ≡ selecting → s.cancelled ≡ true → CallStep s (take_done s)
  answers : s.serving ≡ asking → CallStep s (answer s)
  passes : s.serving ≡ asking → CallStep s (turn_none s)
  finds : s.serving ≡ testing → s.notice ≡ true → CallStep s (find_notice s)
  misses : s.serving ≡ testing → s.notice ≡ false → CallStep s (find_none s)
  responds : s.serving ≡ responding → CallStep s (return_from false s)
  skips : s.serving ≡ skipping → CallStep s (return_from true s)

pub data CallSteps (s : ServeCall) : ServeCall → Type 0 where
  here : CallSteps s s
  and_then_step : {t u : ServeCall} → CallSteps s t → CallStep t u → CallSteps s u
