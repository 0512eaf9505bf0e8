-- ===== src/Cache/Ybc/Theorems.antt =====
-- What the goroutines that share a cache can rely on, in every interleaving.
use ozone.Prelude.{
  ℕ, String, ◌==◌, eq_iff, ◌≡◌, inl, inr, refl, Bool, true, false, Option, none, some, arith,
  Bool-cases, Option-cases,
}
use ozone.Prelude.Dict.{Dict, lookup, lookup-insert, lookup-delete}
use ozone.Cache.Null.{Answer}
use ozone.Cache.Ybc.{
  update, crashed, fetching, YbcCache, Pc, signalled, finished, ybc_set, ybc_delete, clear_section,
}
use ozone.Cache.Ybc.Runs.{
  dies, System, start, Step, goes, puts, loses, clears, ends, then_step, Reachable,
}
use ozone.Cache.Ybc.Invariant.{leads, is_past, is_over, Known, Inv}
use ozone.Cache.Ybc.Invariant.Moves.{Move-Inv}

is_over-past : (p : Pc) → is_over p ≡ true → is_past p ≡ true
is_over-past signalled h = refl
is_over-past p h = ground arith

module _ (keys : ℕ → String) (given : String → String → Bool) where
  start-Inv : Inv keys given start.cache start.pc
  unfolding lookup
  start-Inv = record {
    over = λ c d. cc;
    told = λ c d. cc;
    entries = λ key c e. cc;
    waiters = λ i c e. cc;
    shared = λ i c a e. cc;
    sourced = λ i a e. cc;
    kept = λ key v e. cc;
  }

  -- A value that a caller of Set stores is known.
  put-kept :
      {s : System} (key v : String)
      → Inv keys given s.cache s.pc
      → given key v ≡ true
      → (k w : String) → lookup k (ybc_set key v s.cache).store ≡ some w
      → Known keys given s.cache s.pc k w
  unfolding ybc_set
  put-kept {s} key v inv g k w e = elim (Bool-cases (key == k)) [
    | inl same ↦ inl (ground (arith, lookup-insert key k v s.cache.store, eq_iff key k))
    | inr other ↦ inv.kept k w (ground (arith, lookup-insert key k v s.cache.store))
  ]

  -- Another store.
  stored-Inv :
      {yc : YbcCache} {pc : ℕ → Pc} (store : Dict String)
      → Inv keys given yc pc
      → ((k v : String) → lookup k store ≡ some v → Known keys given yc pc k v)
      → Inv keys given (record yc { store = store }) pc
  stored-Inv store inv kept = record {
    over = inv.over;
    told = inv.told;
    entries = inv.entries;
    waiters = inv.waiters;
    shared = inv.shared;
    sourced = inv.sourced;
    kept = kept;
  }

  crash-Known :
      (yc : YbcCache) (pc : ℕ → Pc) (i : ℕ)
      → pc i ≡ fetching
      → (key v : String) → Known keys given yc pc key v
      → Known keys given yc (update pc i crashed) key v
  crash-Known yc pc i q key v (inl g) = inl g
  crash-Known yc pc i q key v (inr (c, k, past, e)) = inr (c, k, ground arith, e)

  crash-Inv :
      (yc : YbcCache) (pc : ℕ → Pc) (i : ℕ)
      → Inv keys given yc pc
      → pc i ≡ fetching
      → Inv keys given yc (update pc i crashed)
  crash-Inv yc pc i inv q = record {
    over = λ c d. ground (arith, inv.over c);
    told = λ c e. ground (arith, inv.told c);
    entries = λ key c e. ground (arith, inv.entries key c);
    waiters = λ j c e. ground (arith, inv.waiters j c);
    shared = λ j c a e. ground (arith, inv.shared j c a);
    sourced = λ j a e v w. crash-Known yc pc i q (keys j) v (inv.sourced j a (ground arith) v w);
    kept = λ key v e. crash-Known yc pc i q key v (inv.kept key v e);
  }

  Step-Inv :
      {cleared crashing : Bool} {s t : System}
      → Inv keys given s.cache s.pc
      → Step keys given cleared crashing s t
      → Inv keys given t.cache t.pc
  unfolding ybc_set ybc_delete clear_section lookup
  Step-Inv inv (goes i mv q) = Move-Inv keys given inv i mv q
  Step-Inv inv (dies i h q) = crash-Inv _ _ i inv q
  Step-Inv {s = s} inv (puts key v g) = stored-Inv _ inv (put-kept key v inv g)
  Step-Inv {s = s} inv (loses key) =
      stored-Inv _ inv (λ k v e. inv.kept k v (ground (arith, lookup-delete key k s.cache.store)))
  Step-Inv inv (clears c) = record {
    over = inv.over;
    told = inv.told;
    entries = λ key c e. cc;
    waiters = inv.waiters;
    shared = inv.shared;
    sourced = inv.sourced;
    kept = inv.kept;
  }

  pub Reachable-Inv :
      {cleared crashing : Bool} {s : System}
      → Reachable keys given cleared crashing s
      → Inv keys given s.cache s.pc
  Reachable-Inv ends = start-Inv
  Reachable-Inv (then_step r st) = Step-Inv (Reachable-Inv r) st

  -- In every interleaving, a goroutine that has returned a value without an error has returned one
  -- that a caller of Set gave for its key, or that a fetch for its key gave without an error.
  pub finished-Known :
      {cleared crashing : Bool} {s : System}
      → Reachable keys given cleared crashing s
      → (i : ℕ) (o : Option ℕ) (v : String)
      → s.pc i ≡ finished o (record { value = some v; err = none })
      → Known keys given s.cache s.pc (keys i) v
  finished-Known r i none v e = (Reachable-Inv r).sourced i _ e v refl
  finished-Known r i (some c) v e =
      let inv = Reachable-Inv r in
      let (d, k, a) = inv.shared i c _ e in inr (c, k, is_over-past _ (inv.over c d), a)

  -- In every interleaving, two goroutines that return the answer of one call return equal answers,
  -- and for equal keys.
  pub finished_together :
      {cleared crashing : Bool} {s : System}
      → Reachable keys given cleared crashing s
      → (i j c : ℕ) (a b : Answer) → s.pc i ≡ finished (some c) a
      → s.pc j ≡ finished (some c) b
      → (a ≡ b) × (keys i ≡ keys j)
  finished_together r i j c a b p q =
      let (d, k, f) = (Reachable-Inv r).shared i c a p in
      let (e, l, g) = (Reachable-Inv r).shared j c b q in (cc, cc)

  -- In every interleaving, while no goroutine is between the making of its call and the deletion,
  -- or was there when its fetcher panicked, the map of calls has no entry: none is left behind,
  -- whatever the fetches gave.
  pub fetchings_none :
      {cleared crashing : Bool} {s : System}
      → Reachable keys given cleared crashing s
      → ((i : ℕ) → leads (s.pc i) ≡ false)
      → (key : String) → lookup key s.cache.fetchings ≡ none
  fetchings_none {s = s} r h key = elim (Option-cases (lookup key s.cache.fetchings)) [
    | inl n ↦ n
    | inr (c, e) ↦ let (l, k) = (Reachable-Inv r).entries key c e in cc (h c)
  ]
