-- ===== src/Cache/Ybc/Tests.antt =====
-- Two goroutines that look for one key, with a call of Clear between and without, and the theorems
-- at them.
use ozone.Prelude.{ℕ, String, ◌≡◌, refl, arith, Bool, true, false, none, some}
use ozone.Prelude.Dict.{lookup, insert, delete}
use ozone.Cache.Null.{Fetched}
use ozone.Cache.Ybc.{new_ybc_cache, Pc, waiting, fetching, miss, clear_section}
use ozone.Cache.Ybc.Crash.{crash_blocks}
use ozone.Cache.Ybc.Runs.{
  dies, Move, gets, locks, fetches, sets, signals, deletes, wakes, act, System, start, goes, clears,
  ends, then_step, Reachable,
}
use ozone.Cache.Ybc.Invariant.{works, leads, Known}
use ozone.Cache.Ybc.Theorems.{finished-Known, finished_together}
use ozone.Cache.Ybc.SingleFlight.{single_flight}
use ozone.Cache.Ybc.Progress.{Finishes, can_finish}
use ozone.Cache.Ybc.Alone.{
  get_and_store, read, look_aside, held, Implements, get_and_store-Implements,
}

abbrev keys : ℕ → String
keys i = "k"

abbrev given : String → String → Bool
given key v = false

abbrev page : Fetched
page = record { answer = record { value = some "page"; err = none }; ttl = 60 }

abbrev Run : (cleared crashing : Bool) → Type 0
Run cleared crashing = (s : System) × Reachable keys given cleared crashing s

abbrev going :
    {cleared crashing : Bool} (r : Run cleared crashing) (i : ℕ) {p : Pc}
    (mv : Move (keys i) r.0.cache p)
    → r.0.pc i ≡ p
    → Run cleared crashing
going (s, r) i mv e = (_, then_step r (goes i mv e))

-- The first makes the call, the second waits for it.
abbrev both : Run false false
unfolding act lookup insert
both =
    going
      (going (going (going (start, ends) 0 (gets miss refl) refl) 0 locks refl) 1 (gets miss refl)
        refl)
      1 locks refl

both-pc : (both.0.pc 0 ≡ fetching) × (both.0.pc 1 ≡ waiting 0)
unfolding act lookup insert
both-pc = (refl, refl)

-- The fetch returns, and its answer goes to both.
abbrev served : Run false false
unfolding act lookup insert delete
served =
    going
      (going
        (going (going (going both 0 (fetches page) refl) 0 (sets {ttl = 60} true) refl) 0 signals
          refl)
        1 (wakes {c = 0} refl) refl)
      0 deletes refl

served-pc : (i : ℕ) → leads (served.0.pc i) ≡ false
unfolding act lookup insert delete
served-pc i = ground arith

-- After a call of Clear the second makes a call too, and there are two fetches for the key.
cleared_twice :
    (s : System) × Reachable keys given true false s × (s.pc 0 ≡ fetching) × (s.pc 1 ≡ fetching)
unfolding act lookup insert clear_section
cleared_twice =
    let first : Run true false = going (going (start, ends) 0 (gets miss refl) refl) 0 locks refl in
    let emptied : Run true false = (_, then_step first.1 (clears refl)) in
    let second : Run true false = going (going emptied 1 (gets miss refl) refl) 1 locks refl in
    (second.0, second.1, refl, refl)

finished-Known_example : Known keys given served.0.cache served.0.pc "k" "page"
unfolding act lookup insert delete
finished-Known_example = finished-Known keys given served.1 1 (some 0) "page" refl

finished_together_example : (page.answer ≡ page.answer) × (keys 0 ≡ keys 1)
unfolding act lookup insert delete
finished_together_example =
    finished_together keys given served.1 0 1 0 page.answer page.answer refl refl

single_flight_example : ◌≡◌ {A = ℕ} 0 0
unfolding act lookup insert
single_flight_example = single_flight keys given both.1 0 0 refl refl refl

can_finish_example : Finishes keys given both.0 1
unfolding act lookup insert
can_finish_example = can_finish keys given both.1 1 page

get_and_store-Implements_example :
    Implements
      (look_aside "k" page (held new_ybc_cache.store))
      new_ybc_cache
      (get_and_store 0 "k" (read (lookup "k" new_ybc_cache.store)) page true new_ybc_cache)
unfolding lookup
get_and_store-Implements_example = get_and_store-Implements 0 "k" page new_ybc_cache refl

-- The fetcher of the first panics while the second waits.
abbrev blocked : Run false true
unfolding act lookup insert
blocked =
    let waited : Run false true =
      going
        (going (going (going (start, ends) 0 (gets miss refl) refl) 0 locks refl) 1 (gets miss refl)
          refl)
        1 locks refl in
    (_, then_step waited.1 (dies 0 refl refl))

crash_blocks_example :
    ((i : ℕ) → blocked.0.pc i ≡ waiting 0 → blocked.0.pc i ≡ waiting 0)
    × ((j : ℕ) → keys j ≡ keys 0 → works (blocked.0.pc j) ≡ false)
unfolding act lookup insert
crash_blocks_example = crash_blocks keys given blocked.1 0 refl ends
