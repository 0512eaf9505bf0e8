-- ===== src/Cache/Ybc/NoCrash.antt =====
-- The goroutines in runs in which no fetcher panics.
use ozone.Prelude.{◌≢◌, ℕ, String, ◌≡◌, refl, Bool, true, false, arith}
use ozone.Cache.Ybc.{YbcCache, crashed, failure, Pc, idle, hit, miss, update}
use ozone.Cache.Ybc.Runs.{
  dies, puts, loses, clears, Move, gets, act, System, goes, ends, then_step, Reachable,
}
use ozone.Cache.Ybc.Invariant.{is_due, works}

-- No fetcher has panicked.
abbrev pub NoCrash : (ℕ → Pc) → Type 0
NoCrash pc = (i : ℕ) → pc i ≢ crashed

pub due-works : (p : Pc) → p ≢ crashed → is_due p ≡ true → works p ≡ true
due-works crashed n h = absurd (n refl)
due-works idle n h = cc
due-works p n h = h

module _ (keys : ℕ → String) (given : String → String → Bool) where
  pub Move-NoCrash :
      (yc : YbcCache) (pc : ℕ → Pc) {p : Pc}
      → NoCrash pc
      → (i : ℕ) (mv : Move (keys i) yc p) → NoCrash (update pc i (act i (keys i) yc mv).1)
  unfolding act
  Move-NoCrash yc pc h i (gets (hit v) r) j e = ground (arith, h j)
  Move-NoCrash yc pc h i (gets miss r) j e = ground (arith, h j)
  Move-NoCrash yc pc h i (gets (failure f) r) j e = ground (arith, h j)
  Move-NoCrash yc pc h i mv j e = ground (arith, h j)

  pub Reachable-NoCrash :
      {cleared : Bool} {s : System} → Reachable keys given cleared false s → NoCrash s.pc
  Reachable-NoCrash ends i e = cc
  Reachable-NoCrash (then_step r (goes i mv q)) j e =
      Move-NoCrash _ _ (Reachable-NoCrash r) i mv j e
  Reachable-NoCrash (then_step r (dies i h q)) j e = cc
  Reachable-NoCrash (then_step r (puts key v g)) j e = Reachable-NoCrash r j e
  Reachable-NoCrash (then_step r (loses key)) j e = Reachable-NoCrash r j e
  Reachable-NoCrash (then_step r (clears c)) j e = Reachable-NoCrash r j e
