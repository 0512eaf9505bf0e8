-- ===== src/Proxy/Cancel/Laws.antt =====
-- Who receives the notice that the client is gone, and the end of the goroutine.
use ozone.Prelude.{◌≡◌, refl, ap, Bool, true, false, not, ◌&&◌, ◌||◌, arith, Bool-cases, inl, inr}
use ozone.Proxy.Cancel.{
  Watcher, selecting, notified, ended, Serving, asking, testing, responding, skipping, returned,
  ServeCall, serve_call, leave, cancel_parent, take_notice, call_cancel, take_done, answer,
  turn_none, find_notice, find_none, return_from, CallStep, leaves, drops, takes, cancels, stops,
  answers, passes, finds, misses, responds, skips, CallSteps, here, and_then_step,
}

-- The goroutine has received the notice.
abbrev pub was_notified : Watcher → Bool
was_notified selecting = false
was_notified notified = true
was_notified (ended b) = b

-- ServeHTTP has received it.
abbrev pub has_skipped : Serving → Bool
has_skipped skipping = true
has_skipped (returned b) = b
has_skipped s = false

abbrev pub has_returned : Serving → Bool
has_returned (returned b) = true
has_returned s = false

-- The notice is in one place: nowhere while the client is there, else in the channel, with the
-- goroutine or with ServeHTTP. The context is cancelled after the return.
abbrev Inv : ServeCall → Type 0
Inv s =
    ((s.notice && (was_notified s.watcher || has_skipped s.serving)) ≡ false)
    × ((was_notified s.watcher && has_skipped s.serving) ≡ false)
    × ((s.notice || was_notified s.watcher || has_skipped s.serving) ≡ s.gone)
    × ((has_returned s.serving && not s.cancelled) ≡ false)

CallStep-Inv : {s t : ServeCall} → Inv s → CallStep s t → Inv t
unfolding leave cancel_parent take_notice call_cancel take_done answer turn_none find_notice
    find_none return_from
CallStep-Inv (a, b, c, d) (leaves g) = ground arith
CallStep-Inv (a, b, c, d) (drops g) = ground arith
CallStep-Inv (a, b, c, d) (takes w n) = ground arith
CallStep-Inv (a, b, c, d) (cancels w) = ground arith
CallStep-Inv (a, b, c, d) (stops w e) = ground arith
CallStep-Inv (a, b, c, d) (answers p) = ground arith
CallStep-Inv (a, b, c, d) (passes p) = ground arith
CallStep-Inv (a, b, c, d) (finds p n) = ground arith
CallStep-Inv (a, b, c, d) (misses p n) = ground arith
CallStep-Inv (a, b, c, d) (responds p) = ground arith
CallStep-Inv (a, b, c, d) (skips p) = ground arith

start-Inv : Inv serve_call
unfolding serve_call
start-Inv = (refl, refl, refl, refl)

CallSteps-Inv : {s t : ServeCall} → Inv s → CallSteps s t → Inv t
CallSteps-Inv h here = h
CallSteps-Inv h (and_then_step r st) = CallStep-Inv (CallSteps-Inv h r) st

-- What the goroutine has received it has for good.
CallStep-notified :
    {s t : ServeCall} → was_notified s.watcher ≡ true → CallStep s t → was_notified t.watcher ≡ true
unfolding leave cancel_parent take_notice call_cancel take_done answer turn_none find_notice
    find_none return_from
CallStep-notified n (leaves g) = n
CallStep-notified n (drops g) = n
CallStep-notified n (takes w e) = refl
CallStep-notified n (cancels w) = refl
CallStep-notified n (stops w e) = ground arith
CallStep-notified n (answers p) = n
CallStep-notified n (passes p) = n
CallStep-notified n (finds p e) = n
CallStep-notified n (misses p e) = n
CallStep-notified n (responds p) = n
CallStep-notified n (skips p) = n

CallSteps-notified :
    {s t : ServeCall}
    → was_notified s.watcher ≡ true
    → CallSteps s t
    → was_notified t.watcher ≡ true
CallSteps-notified n here = n
CallSteps-notified n (and_then_step r st) = CallStep-notified (CallSteps-notified n r) st

-- In every interleaving: the goroutine receives the notice, and ServeHTTP skips the response, only
-- if the client is gone; and once the goroutine has received the notice, the response is not skipped,
-- not then and not later.
pub notice_lem :
    {s t : ServeCall}
    → CallSteps serve_call s
    → CallSteps s t
    → ((was_notified s.watcher && not s.gone) ≡ false)
      × ((has_skipped s.serving && not s.gone) ≡ false)
      × ((was_notified s.watcher && has_skipped t.serving) ≡ false)
notice_lem {s} {t} r q =
    let h = CallSteps-Inv start-Inv r in
    let k = CallSteps-Inv h q in
    (
      ground (arith, h.2),
      ground (arith, h.2),
      elim (Bool-cases (was_notified s.watcher)) [
        | inl n ↦ ground (arith, k.1, CallSteps-notified n q)
        | inr n ↦ rw n refl
      ],
    )

abbrev join_steps : {s t u : ServeCall} → CallSteps s t → CallSteps t u → CallSteps s u
join_steps r here = r
join_steps r (and_then_step q st) = and_then_step (join_steps r q) st

-- A step of ServeHTTP or of its goroutine, and not of the client or the server.
abbrev pub is_own : {s t : ServeCall} → CallStep s t → Bool
is_own (leaves g) = false
is_own (drops g) = false
is_own (takes w n) = true
is_own (cancels w) = true
is_own (stops w e) = true
is_own (answers p) = true
is_own (passes p) = true
is_own (finds p n) = true
is_own (misses p n) = true
is_own (responds p) = true
is_own (skips p) = true

abbrev pub all_own : {s t : ServeCall} → CallSteps s t → Bool
all_own here = true
all_own (and_then_step r st) = all_own r && is_own st

all_own-join_steps :
    {s t u : ServeCall} (r : CallSteps s t) (q : CallSteps t u)
    → all_own r ≡ true
    → all_own q ≡ true
    → all_own (join_steps r q) ≡ true
all_own-join_steps r here e d = e
all_own-join_steps r (and_then_step q st) e d = ground (arith, all_own-join_steps r q e)

-- ServeHTTP has returned, and the goroutine has ended.
abbrev pub IsOver : ServeCall → Type 0
IsOver s = (has_returned s.serving ≡ true) × ((b : Bool) × (s.watcher ≡ ended b))

abbrev pub CanEnd : ServeCall → Type 0
CanEnd s = (t : ServeCall) × (r : CallSteps s t) × (all_own r ≡ true) × IsOver t

by_step : {s t : ServeCall} (st : CallStep s t) → is_own st ≡ true → CanEnd t → CanEnd s
by_step st o (u, r, own, e) =
    (u, join_steps (and_then_step here st) r, all_own-join_steps (and_then_step here st) r o own, e)

watcher_ends :
    (s : ServeCall) (w : Watcher) → s.watcher ≡ w → Inv s → has_returned s.serving ≡ true → CanEnd s
unfolding take_done call_cancel
watcher_ends s selecting e h d =
    by_step (stops e (ground arith)) refl (take_done s, here, refl, (d, (false, refl)))
watcher_ends s notified e h d =
    by_step (cancels e) refl (call_cancel s, here, refl, (d, (true, refl)))
watcher_ends s (ended b) e h d = (s, here, refl, (d, (b, e)))

-- The return, and then the end of the goroutine.
skipping-CanEnd : (s : ServeCall) → s.serving ≡ skipping → Inv s → CanEnd s
unfolding return_from
skipping-CanEnd s p h =
    by_step (skips p) refl
      (watcher_ends (return_from true s) _ refl (CallStep-Inv {s = s} h (skips p)) refl)

responding-CanEnd : (s : ServeCall) → s.serving ≡ responding → Inv s → CanEnd s
unfolding return_from
responding-CanEnd s p h =
    by_step (responds p) refl
      (watcher_ends (return_from false s) _ refl (CallStep-Inv {s = s} h (responds p)) refl)

serving-CanEnd : (s : ServeCall) (p : Serving) → s.serving ≡ p → Inv s → CanEnd s
unfolding find_notice find_none turn_none
serving-CanEnd s asking p h =
    by_step (passes p) refl
      (responding-CanEnd (turn_none s) refl (CallStep-Inv {s = s} h (passes p)))
serving-CanEnd s testing p h = elim (Bool-cases s.notice) [
  | inl n ↦
      by_step (finds p n) refl
        (skipping-CanEnd (find_notice s) refl (CallStep-Inv {s = s} h (finds p n)))
  | inr n ↦
      by_step (misses p n) refl
        (responding-CanEnd (find_none s) refl (CallStep-Inv {s = s} h (misses p n)))
]
serving-CanEnd s responding p h = responding-CanEnd s p h
serving-CanEnd s skipping p h = skipping-CanEnd s p h
serving-CanEnd s (returned b) p h = watcher_ends s s.watcher refl h (ap has_returned p)

-- From every state of every interleaving, steps of ServeHTTP and of its goroutine alone lead to a
-- state in which ServeHTTP has returned and the goroutine has ended: neither needs the client to
-- leave, or the server to cancel the context.
pub serve_call_ends : {s : ServeCall} → CallSteps serve_call s → CanEnd s
serve_call_ends {s} r = serving-CanEnd s s.serving refl (CallSteps-Inv start-Inv r)
