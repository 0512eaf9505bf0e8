-- ===== src/Cache/Ybc/Crash.antt =====
-- A fetcher that panics, and the goroutines that wait for its call.
use ozone.Prelude.{Bool-cases, inl, inr, ℕ, String, ◌≡◌, Bool, true, false, arith}
use ozone.Cache.Ybc.{Pc, idle, waiting, crashed, update}
use ozone.Cache.Ybc.Runs.{
  Move, signals, wakes, act, System, goes, dies, puts, loses, clears, Steps, ends, then_step,
  Reachable,
}
use ozone.Cache.Ybc.Invariant.{works, leads}
use ozone.Cache.Ybc.Theorems.{Reachable-Inv}
use ozone.Cache.Ybc.SingleFlight.{single_flight}

leads-works : (p : Pc) → works p ≡ true → leads p ≡ true
leads-works idle h = cc
leads-works p h = ground arith

module _ (keys : ℕ → String) where
  -- A goroutine that waits for the crashed one has no move, and the crashed one has none.
  Move-waiting :
      (s : System) (c i j : ℕ) {p : Pc} (mv : Move (keys j) s.cache p)
      → (s.cache.calls c).done ≡ false
      → s.pc j ≡ p
      → s.pc i ≡ waiting c
      → update s.pc j (act j (keys j) s.cache mv).1 i ≡ waiting c
  unfolding act
  Move-waiting s c i j (wakes w) d q e = ground arith
  Move-waiting s c i j mv d q e = ground arith

  Move-crashed :
      (s : System) (c j : ℕ) {p : Pc} (mv : Move (keys j) s.cache p)
      → s.pc j ≡ p
      → s.pc c ≡ crashed
      → update s.pc j (act j (keys j) s.cache mv).1 c ≡ crashed
  unfolding act
  Move-crashed s c j signals q e = ground arith
  Move-crashed s c j mv q e = ground arith

module _ (keys : ℕ → String) (given : String → String → Bool) {crashing : Bool} where
  Steps-Reachable :
      {s t : System}
      → Reachable keys given false crashing s
      → Steps keys given false crashing s t
      → Reachable keys given false crashing t
  Steps-Reachable r ends = r
  Steps-Reachable r (then_step q st) = then_step (Steps-Reachable r q) st

  crashed_stays :
      {s t : System} (c : ℕ)
      → Steps keys given false crashing s t
      → s.pc c ≡ crashed
      → t.pc c ≡ crashed
  crashed_stays c ends e = e
  crashed_stays c (then_step {t} q (goes j mv h)) e =
      Move-crashed keys t c j mv h (crashed_stays c q e)
  crashed_stays c (then_step q (dies j on h)) e = ground (arith, crashed_stays c q e)
  crashed_stays c (then_step q (puts key v g)) e = crashed_stays c q e
  crashed_stays c (then_step q (loses key)) e = crashed_stays c q e
  crashed_stays c (then_step q (clears on)) e = crashed_stays c q e

  -- Its call is not signalled.
  crashed_undone :
      {s : System} (c : ℕ)
      → Reachable keys given false crashing s
      → s.pc c ≡ crashed
      → (s.cache.calls c).done ≡ false
  crashed_undone c r e = ground (arith, (Reachable-Inv keys given r).over c)

  crash_waits :
      {s t : System} (c i : ℕ)
      → Reachable keys given false crashing s
      → Steps keys given false crashing s t
      → s.pc c ≡ crashed
      → s.pc i ≡ waiting c
      → t.pc i ≡ waiting c
  crash_waits c i r ends e w = w
  crash_waits c i r (then_step {t} q (goes j mv h)) e w =
      Move-waiting keys t c i j mv (crashed_undone c (Steps-Reachable r q) (crashed_stays c q e)) h
        (crash_waits c i r q e w)
  crash_waits c i r (then_step q (dies j on h)) e w = ground (arith, crash_waits c i r q e w)
  crash_waits c i r (then_step q (puts key v g)) e w = crash_waits c i r q e w
  crash_waits c i r (then_step q (loses key)) e w = crash_waits c i r q e w
  crash_waits c i r (then_step q (clears on)) e w = crash_waits c i r q e w

  -- Without a call of Clear, the panic of a fetcher blocks its key for good: whatever happens after
  -- it, a goroutine that waits for its call goes on waiting, and no other fetch for its key is under
  -- way.
  pub crash_blocks :
      {s t : System}
      → Reachable keys given false crashing s
      → (c : ℕ) → s.pc c ≡ crashed
      → Steps keys given false crashing s t
      → ((i : ℕ) → s.pc i ≡ waiting c → t.pc i ≡ waiting c)
        × ((j : ℕ) → keys j ≡ keys c → works (t.pc j) ≡ false)
  crash_blocks {t = t} r c e q = (
    λ i w. crash_waits c i r q e w,
    λ j k. elim (Bool-cases (works (t.pc j))) [
      | inr idle_now ↦ idle_now
      | inl busy ↦
          let there = crashed_stays c q e in
          let same =
            single_flight keys given (Steps-Reachable r q) j c (leads-works (t.pc j) busy)
              (ground arith) k in
          cc
    ],
  )
