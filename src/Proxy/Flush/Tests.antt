-- ===== src/Proxy/Flush/Tests.antt =====
-- A tick that comes during a call of Write, and the end after it.
use ozone.Prelude.{ℕ, ◌≡◌, refl, true, false, none, some, List, [], ◌∷◌, ◌++◌, ◌&&◌}
use ozone.Prelude.Lists.{length}
use ozone.Proxy.Copy.{Wrote}
use ozone.Proxy.Flush.{
  MaxLatencyWriter, outside, left, selecting, exited, max_latency_writer, call_write, lock_write,
  end_write, tick, lock_flush, end_flush, call_stop, receive_done, Turn, calls, locks, writes,
  ticks, takes, flushes, stops, receives, Turns, ends, then_turn,
}
use ozone.Proxy.Flush.Laws.{in_write, in_flush, has_left, Leaves, max_latency_writer_lem}

-- The bytes that wait for a flush, and those that were sent.
abbrev Buffered : Type 0
Buffered = List ℕ × List ℕ

abbrev put : Buffered → List ℕ → Wrote Buffered
put (waits, sent) bytes = record {
  count = length bytes;
  err = none;
  after = (waits ++ bytes, sent);
}

abbrev send : Buffered → Buffered
send (waits, sent) = ([], sent ++ waits)

abbrev fresh : MaxLatencyWriter Buffered
fresh = record { dst = ([], []); mu = false; writer = outside 0 none; loop = selecting }

made : max_latency_writer 100 true ([], []) ≡ some fresh
unfolding max_latency_writer
made = refl

-- An interval of 0 makes no goroutine.
no_interval : max_latency_writer {W = Buffered} 0 true ([], []) ≡ none
unfolding max_latency_writer
no_interval = refl

abbrev Run : Type 0
Run = (s : MaxLatencyWriter Buffered) × Turns put send fresh s

abbrev going : (r : Run) {s : MaxLatencyWriter Buffered} → Turn put send r.0 s → Run
going (s, r) st = (_, then_turn r st)

-- The flush waits for the mutex.
abbrev written : Run
unfolding call_write lock_write end_write tick lock_flush
written =
    going
      (going
        (going
          (going (going (fresh, ends) (calls (7 ∷ 8 ∷ []) refl)) (locks (7 ∷ 8 ∷ []) refl refl))
          (ticks refl))
        (writes (7 ∷ 8 ∷ []) refl))
      (takes refl refl)

abbrev stopped : Run
unfolding call_write lock_write end_write tick lock_flush end_flush call_stop receive_done
stopped = going (going (going written (stops refl)) (flushes refl)) (receives refl refl)

stopped_state :
    stopped.0 ≡ record { dst = ([], 7 ∷ 8 ∷ []); mu = false; writer = left; loop = exited }
unfolding call_write lock_write end_write tick lock_flush end_flush call_stop receive_done
stopped_state = refl

max_latency_writer_example :
    ((in_write written.0.writer && in_flush written.0.loop) ≡ false)
    × Leaves put send written.0
    × (has_left written.0.writer ≡ true
        → (t : MaxLatencyWriter Buffered) → Turns put send written.0 t
        → t ≡ written.0)
max_latency_writer_example = max_latency_writer_lem put send 100 true ([], []) made written.1
