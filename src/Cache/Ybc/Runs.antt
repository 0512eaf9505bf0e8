-- ===== src/Cache/Ybc/Runs.antt =====
-- The interleavings of goroutines that each call GetAndStore once, with calls of Set, Delete and
-- Clear and with the entries that the cache below loses.
use ozone.Prelude.{ℕ, String, ◌≡◌, Bool, true, Option, none, some}
use ozone.Prelude.Dict.{lookup}
use ozone.Cache.Null.{Fetched}
use ozone.Cache.Ybc.{
  crashed, new_ybc_cache, YbcCache, Pc, idle, missed, waiting, fetching, fetched, stored, signalled,
  GetResult, hit, miss, failure, update, get_section, lock_section, fetch_section, set_section,
  done_section, delete_section, wake_section, ybc_set, ybc_delete, clear_section,
}

-- The cache below gives what it holds, or says that it holds nothing, or fails.
abbrev pub Reads : Option String → GetResult → Type 0
Reads held (hit v) = held ≡ some v
Reads held miss = held ≡ none
Reads held (failure e) = Unit

pub record System : Type 0 where
  pub cache : YbcCache
  pub pc : ℕ → Pc

abbrev pub start : System
start = record { cache = new_ybc_cache; pc = λ _. idle }

-- What can come next for a goroutine that stands at a place and looks for `key`.
pub data Move (key : String) (yc : YbcCache) : Pc → Type 0 where
  gets : (r : GetResult) → Reads (lookup key yc.store) r → Move key yc idle
  locks : Move key yc missed
  fetches : Fetched → Move key yc fetching
  sets : {ttl : ℕ} → (taken : Bool) → Move key yc (fetched ttl)
  signals : Move key yc stored
  deletes : Move key yc signalled
  wakes : {c : ℕ} → (yc.calls c).done ≡ true → Move key yc (waiting c)

-- The cache after it, and the place of the goroutine.
unfoldable pub act : (i : ℕ) (key : String) (yc : YbcCache) {p : Pc} → Move key yc p → YbcCache × Pc
unfolding get_section lock_section fetch_section set_section done_section delete_section
    wake_section
act i key yc (gets r h) = get_section key r yc
act i key yc locks = lock_section i key yc
act i key yc (fetches f) = fetch_section i f yc
act i key yc (sets taken) = set_section i key taken yc
act i key yc signals = done_section i yc
act i key yc deletes = delete_section i key yc
act i key yc (wakes {c} w) = wake_section c yc

-- `keys` are the keys that the goroutines look for; `given` tells which values the callers of Set
-- give for a key, and `cleared` whether Clear is called,
-- `crashing` whether fetchers can panic.
module _ (keys : ℕ → String) (given : String → String → Bool) (cleared crashing : Bool) where
  pub data Step (s : System) : System → Type 0 where
    goes :
        (i : ℕ) {p : Pc} (mv : Move (keys i) s.cache p)
        → s.pc i ≡ p
        → Step s (record {
          cache = (act i (keys i) s.cache mv).0;
          pc = update s.pc i (act i (keys i) s.cache mv).1;
        })
    dies :
        (i : ℕ)
        → crashing ≡ true
        → s.pc i ≡ fetching
        → Step s (record { cache = s.cache; pc = update s.pc i crashed })
    puts :
        (key v : String)
        → given key v ≡ true
        → Step s (record { cache = ybc_set key v s.cache; pc = s.pc })
    loses : (key : String) → Step s (record { cache = ybc_delete key s.cache; pc = s.pc })
    clears : cleared ≡ true → Step s (record { cache = clear_section s.cache; pc = s.pc })

  pub data Steps (s : System) : System → Type 0 where
    ends : Steps s s
    then_step : {t u : System} → Steps s t → Step t u → Steps s u

  abbrev pub Reachable : System → Type 0
  Reachable s = Steps start s
