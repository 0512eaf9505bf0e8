-- ===== src/Proxy/Flush.antt =====
-- handlers/rproxy/orig_reverseproxy.go, maxLatencyWriter: the writer of copyResponse and the
-- goroutine that flushes the destination at each tick meanwhile. The functions are the sections that
-- the other goroutine cannot interrupt; the destination is a state with functions for Write and
-- Flush. No code of the repository sets the interval.
pub mod Laws
mod Tests
use ozone.Prelude.{
  ℕ, String, ◌≡◌, Bool, true, false, Option, none, List, nat_eq, if◌then◌else◌, some,
}
use ozone.Proxy.Copy.{Wrote}

-- The goroutine of copyResponse: outside of the calls, with what the last call of Write returned, in
-- a call of Write before and after Lock, in stop, and after it.
pub data Copier : Type 0 where
  outside : ℕ → Option String → Copier
  locking : List ℕ → Copier
  writing : List ℕ → Copier
  sending : Copier
  left : Copier

-- flushLoop: at the select, after a tick before and after Lock, and after its return.
pub data Loop : Type 0 where
  selecting : Loop
  ticked : Loop
  flushing : Loop
  exited : Loop

-- maxLatencyWriter; `mu` tells whether the mutex is locked.
pub record MaxLatencyWriter (W : Type 0) : Type 0 where
  pub dst : W
  pub mu : Bool
  pub writer : Copier
  pub loop : Loop

-- copyResponse: the writer that it makes if the interval is not 0 and the destination can be
-- flushed, with its goroutine at the select. The interval is not negative.
unfoldable pub max_latency_writer : {W : Type 0} → ℕ → Bool → W → Option (MaxLatencyWriter W)
max_latency_writer interval flusher dst =
    if nat_eq interval 0
    then none
    else if flusher
    then some (record { dst = dst; mu = false; writer = outside 0 none; loop = selecting })
    else none

module _ {W : Type 0} where
  -- Write
  unfoldable pub call_write : List ℕ → MaxLatencyWriter W → MaxLatencyWriter W
  call_write p m = record m { writer = locking p }

  unfoldable pub lock_write : List ℕ → MaxLatencyWriter W → MaxLatencyWriter W
  lock_write p m = record m { mu = true; writer = writing p }

  unfoldable pub end_write :
      (W → List ℕ → Wrote W) → List ℕ → MaxLatencyWriter W → MaxLatencyWriter W
  end_write write p m =
      let o = write m.dst p in
      record m { dst = o.after; mu = false; writer = outside o.count o.err }

  -- flushLoop
  unfoldable pub tick : MaxLatencyWriter W → MaxLatencyWriter W
  tick m = record m { loop = ticked }

  unfoldable pub lock_flush : MaxLatencyWriter W → MaxLatencyWriter W
  lock_flush m = record m { mu = true; loop = flushing }

  unfoldable pub end_flush : (W → W) → MaxLatencyWriter W → MaxLatencyWriter W
  end_flush flush m = record m { dst = flush m.dst; mu = false; loop = selecting }

  -- stop, which sends on a channel without a buffer.
  unfoldable pub call_stop : MaxLatencyWriter W → MaxLatencyWriter W
  call_stop m = record m { writer = sending }

  unfoldable pub receive_done : MaxLatencyWriter W → MaxLatencyWriter W
  receive_done m = record m { writer = left; loop = exited }

module _ {W : Type 0} (write : W → List ℕ → Wrote W) (flush : W → W) where
  -- The turns of the two goroutines. Lock waits until the mutex is free.
  pub data Turn (m : MaxLatencyWriter W) : MaxLatencyWriter W → Type 0 where
    calls :
        {n : ℕ} {e : Option String} (p : List ℕ) → m.writer ≡ outside n e → Turn m (call_write p m)
    locks : (p : List ℕ) → m.writer ≡ locking p → m.mu ≡ false → Turn m (lock_write p m)
    writes : (p : List ℕ) → m.writer ≡ writing p → Turn m (end_write write p m)
    ticks : m.loop ≡ selecting → Turn m (tick m)
    takes : m.loop ≡ ticked → m.mu ≡ false → Turn m (lock_flush m)
    flushes : m.loop ≡ flushing → Turn m (end_flush flush m)
    stops : {n : ℕ} {e : Option String} → m.writer ≡ outside n e → Turn m (call_stop m)
    receives : m.writer ≡ sending → m.loop ≡ selecting → Turn m (receive_done m)

  pub data Turns (m : MaxLatencyWriter W) : MaxLatencyWriter W → Type 0 where
    ends : Turns m m
    then_turn : {t u : MaxLatencyWriter W} → Turns m t → Turn t u → Turns m u
