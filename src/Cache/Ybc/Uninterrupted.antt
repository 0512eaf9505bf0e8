-- ===== src/Cache/Ybc/Uninterrupted.antt =====
-- The function get_and_store and the runs of the goroutines in which only one of them moves.
use ozone.Prelude.{
  ℕ, String, ◌≡◌, refl, sym, ap, ◌∙◌, Bool, true, false, Option, none, some, arith, if◌then◌else◌,
}
use ozone.Prelude.Dict.{lookup}
use ozone.Cache.Null.{Fetched}
use ozone.Cache.Ybc.{
  YbcCache, Pc, idle, hit, miss, update, join_or_make, fetch_section, set_section, done_section,
  delete_section, ybc_get,
}
use ozone.Cache.Ybc.Runs.{
  Move, gets, locks, fetches, sets, signals, deletes, act, System, goes, Steps, ends, then_step,
}
use ozone.Cache.Ybc.Alone.{get_and_store, read, then_fetch, nat_eq_same}

module _ (keys : ℕ → String) (given : String → String → Bool) where
  -- It runs to the cache and the place.
  abbrev pub RunsTo : System → ℕ → YbcCache × Pc → Type 0
  RunsTo s i (yc, p) =
      (t : System) × Steps keys given false false s t × (t.cache ≡ yc) × (t.pc i ≡ p)

  moved :
      {s t : System}
      → Steps keys given false false s t
      → (i : ℕ) {p : Pc} (mv : Move (keys i) t.cache p) → t.pc i ≡ p
      → Steps keys given false false s (record {
        cache = (act i (keys i) t.cache mv).0;
        pc = update t.pc i (act i (keys i) t.cache mv).1;
      })
  moved r i mv e = then_step r (goes i mv e)

  -- The state after a move.
  abbrev next : (s : System) (i : ℕ) {p : Pc} → Move (keys i) s.cache p → System
  next s i mv = record {
    cache = (act i (keys i) s.cache mv).0;
    pc = update s.pc i (act i (keys i) s.cache mv).1;
  }

  update-same : {A : Type 0} → (g : ℕ → A) (i : ℕ) (a : A) → update g i a i ≡ a
  update-same g i a = ap (λ b. if b then a else g i) (nat_eq_same i)

  read-RunsTo :
      (o : Option String) (i : ℕ) (f : Fetched) (s : System)
      → s.pc i ≡ idle
      → lookup (keys i) s.cache.store ≡ o
      → lookup (keys i) s.cache.fetchings ≡ none
      → RunsTo s i (get_and_store i (keys i) (read o) f true s.cache)
  unfolding act get_and_store
  read-RunsTo (some v) i f s e h n =
      (next s i (gets (hit v) h), then_step ends (goes i (gets (hit v) h) e), refl, ground arith)
  read-RunsTo none i f s e h n =
      let key = keys i in
      let yc = ybc_get miss s.cache in
      let whole = λ (o : Option ℕ). then_fetch i key f true (join_or_make o i key yc) in
      let made = λ (o : Option ℕ).
        (delete_section i key
          (done_section i
            (set_section i key true (fetch_section i f (join_or_make o i key yc).0).0).0).0).0 in
      let s1 = next s i (gets miss h) in
      let s2 = next s1 i locks in
      let s3 = next s2 i (fetches f) in
      let s4 = next s3 i (sets {ttl = f.ttl} true) in
      let s5 = next s4 i signals in
      (
        next s5 i deletes,
        moved
            (moved
              (moved
                (moved (moved (moved ends i (gets miss h) e) i locks (ground arith)) i (fetches f)
                  (ground arith))
                i (sets {ttl = f.ttl} true) (ground arith))
              i signals (ground arith))
            i deletes (ground arith),
        ap made n ∙ ap (λ o. (whole o).0) (sym n),
        update-same s5.pc i (act i key s5.cache deletes).1
            ∙ ap
                (λ o.
                  (delete_section i key
                    (done_section i
                      (set_section i key true
                        (fetch_section i f (join_or_make o i key yc).0).0).0).0).1)
                n
            ∙ ap (λ o. (whole o).1) (sym n),
      )

  -- A goroutine that has not begun, whose key no call in the map has, can run through GetAndStore
  -- with no other goroutine moving, to the cache and the answer that the function get_and_store
  -- has; the cache below gives what it holds and keeps what it is given.
  pub get_and_store-RunsTo :
      (i : ℕ) (f : Fetched) (s : System)
      → s.pc i ≡ idle
      → lookup (keys i) s.cache.fetchings ≡ none
      → RunsTo s i (get_and_store i (keys i) (read (lookup (keys i) s.cache.store)) f true s.cache)
  get_and_store-RunsTo i f s e n = read-RunsTo (lookup (keys i) s.cache.store) i f s e refl n
