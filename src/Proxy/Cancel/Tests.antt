-- ===== src/Proxy/Cancel/Tests.antt =====
-- A client that leaves before a module answers: the goroutine takes the notice first, and the
-- response is written.
use ozone.Prelude.{◌≡◌, refl, true, false, not, ◌&&◌}
use ozone.Proxy.Cancel.{
  ServeCall, serve_call, leave, take_notice, answer, find_notice, find_none, return_from, returned,
  CallStep, leaves, takes, answers, finds, misses, responds, skips, CallSteps, here, and_then_step,
}
use ozone.Proxy.Cancel.Laws.{was_notified, has_skipped, CanEnd, notice_lem, serve_call_ends}

abbrev Run : Type 0
Run = (s : ServeCall) × CallSteps serve_call s

abbrev going : (r : Run) {s : ServeCall} → CallStep r.0 s → Run
going (s, r) st = (_, and_then_step r st)

abbrev taken : Run
unfolding serve_call leave take_notice answer
taken = going (going (going (serve_call, here) (leaves refl)) (answers refl)) (takes refl refl)

abbrev written : Run
unfolding serve_call leave take_notice answer find_none return_from
written = going (going taken (misses refl refl)) (responds refl)

abbrev after : (t : ServeCall) × CallSteps taken.0 t
unfolding serve_call leave take_notice answer find_none
after = (_, and_then_step here (misses refl refl))

written_lem : (written.0.gone ≡ true) × (written.0.serving ≡ returned false)
unfolding serve_call leave take_notice answer find_none return_from
written_lem = (refl, refl)

-- The test comes first.
abbrev skipped : Run
unfolding serve_call leave answer find_notice return_from
skipped =
    going (going (going (going (serve_call, here) (leaves refl)) (answers refl)) (finds refl refl))
      (skips refl)

skipped_lem : skipped.0.serving ≡ returned true
unfolding serve_call leave answer find_notice return_from
skipped_lem = refl

notice_example :
    ((was_notified taken.0.watcher && not taken.0.gone) ≡ false)
    × ((has_skipped taken.0.serving && not taken.0.gone) ≡ false)
    × ((was_notified taken.0.watcher && has_skipped after.0.serving) ≡ false)
notice_example = notice_lem taken.1 after.1

serve_call_ends_example : CanEnd taken.0
serve_call_ends_example = serve_call_ends taken.1
