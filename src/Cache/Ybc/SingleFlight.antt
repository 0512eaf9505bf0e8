-- ===== src/Cache/Ybc/SingleFlight.antt =====
-- Which goroutines have the call of a key, if Clear is not called.
use ozone.Prelude.{ℕ, String, eq_iff, ◌≡◌, Bool, true, false, some, arith}
use ozone.Prelude.Dict.{lookup, lookup-insert, lookup-delete}
use ozone.Cache.Ybc.{YbcCache, Pc, update, ybc_set, ybc_delete}
use ozone.Cache.Ybc.Runs.{
  dies, Move, signals, act, System, goes, puts, loses, clears, ends, then_step, Reachable,
}
use ozone.Cache.Ybc.Invariant.{leads}

module _ (keys : ℕ → String) (given : String → String → Bool) where
  -- The entry of a goroutine's key is its own call.
  abbrev Leaders : YbcCache → (ℕ → Pc) → Type 0
  Leaders yc pc = (j : ℕ) → leads (pc j) ≡ true → lookup (keys j) yc.fetchings ≡ some j

  Move-Leaders :
      (yc : YbcCache) (pc : ℕ → Pc) {p : Pc}
      → Leaders yc pc
      → (i : ℕ) (mv : Move (keys i) yc p) → pc i ≡ p
      → Leaders (act i (keys i) yc mv).0 (update pc i (act i (keys i) yc mv).1)
  unfolding act
  Move-Leaders yc pc h i signals q j l = ground (arith, h j)
  Move-Leaders yc pc h i mv q j l = ground (
    arith,
    h i,
    h j,
    lookup-insert (keys i) (keys j) i yc.fetchings,
    lookup-delete (keys i) (keys j) yc.fetchings,
    eq_iff (keys i) (keys j),
  )

  Reachable-Leaders :
      {crashing : Bool} {s : System} → Reachable keys given false crashing s → Leaders s.cache s.pc
  unfolding ybc_set ybc_delete
  Reachable-Leaders ends j l = cc
  Reachable-Leaders (then_step r (goes i mv q)) j l =
      Move-Leaders _ _ (Reachable-Leaders r) i mv q j l
  Reachable-Leaders (then_step r (dies i h q)) j l =
      ground (arith, Reachable-Leaders r i, Reachable-Leaders r j)
  Reachable-Leaders (then_step r (puts key v g)) j l = Reachable-Leaders r j l
  Reachable-Leaders (then_step r (loses key)) j l = Reachable-Leaders r j l
  Reachable-Leaders (then_step r (clears c)) j l = cc

  -- In every interleaving without a call of Clear, no two goroutines are at the same time between
  -- the making and the deletion of a call for one key, or were there when their fetcher panicked: at
  -- most one fetch for it is under way.
  pub single_flight :
      {crashing : Bool} {s : System}
      → Reachable keys given false crashing s
      → (i j : ℕ) → leads (s.pc i) ≡ true
      → leads (s.pc j) ≡ true
      → keys i ≡ keys j
      → i ≡ j
  single_flight r i j p q e =
      let mine = Reachable-Leaders r i p in let other = Reachable-Leaders r j q in cc
