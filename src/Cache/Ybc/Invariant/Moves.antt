-- ===== src/Cache/Ybc/Invariant/Moves.antt =====
-- A section of one goroutine keeps each field of `Inv`.
use ozone.Prelude.{
  ℕ, String, nat_eq_iff, Bool-cases, subst, ◌==◌, eq_iff, nat_eq, ◌≡◌, ◌⊎◌, inl, inr, refl, Bool,
  true, false, none, some, arith, Option-cases,
}
use ozone.Prelude.Dict.{lookup, insert, lookup-insert, lookup-delete}
use ozone.Cache.Null.{Answer}
use ozone.Cache.Ybc.{
  YbcCache, Pc, waiting, fetched, signalled, finished, hit, miss, failure, update, to_store,
}
use ozone.Cache.Ybc.Runs.{Reads, Move, gets, locks, sets, signals, wakes, act}
use ozone.Cache.Ybc.Invariant.{is_due, leads, is_over, Known, Shared, Sourced, Inv}

module _ (keys : ℕ → String) (given : String → String → Bool) {yc : YbcCache} {pc : ℕ → Pc}
    (inv : Inv keys given yc pc) (i : ℕ) where
  open inv use {over, told, entries, waiters, shared, sourced, kept}

  -- The premise of a move.
  abbrev Guard : {p : Pc} → Move (keys i) yc p → Type 0
  Guard (gets r h) = Reads (lookup (keys i) yc.store) r
  Guard (wakes {c} w) = (yc.calls c).done ≡ true
  Guard _ = Unit

  guard : {p : Pc} (mv : Move (keys i) yc p) → Guard mv
  guard (gets r h) = h
  guard (wakes w) = w
  guard _ = tt

  abbrev yc' : {p : Pc} → Move (keys i) yc p → YbcCache
  yc' mv = (act i (keys i) yc mv).0

  abbrev pc' : {p : Pc} → Move (keys i) yc p → ℕ → Pc
  pc' mv = update pc i (act i (keys i) yc mv).1

  Move-over :
      {p : Pc} (mv : Move (keys i) yc p)
      → pc i ≡ p
      → (c : ℕ) → ((yc' mv).calls c).done ≡ true
      → is_over (pc' mv c) ≡ true
  unfolding act
  Move-over signals q c d = ground (arith, over c)
  Move-over mv q c d = ground (arith, over c)

  Move-told :
      {p : Pc} (mv : Move (keys i) yc p)
      → pc i ≡ p
      → (c : ℕ) → pc' mv c ≡ signalled
      → ((yc' mv).calls c).done ≡ true
  unfolding act
  Move-told signals q c d = ground (arith, told c)
  Move-told mv q c d = ground (arith, told c)

  Move-entries :
      {p : Pc} (mv : Move (keys i) yc p)
      → pc i ≡ p
      → (key : String) (c : ℕ) → lookup key (yc' mv).fetchings ≡ some c
      → (leads (pc' mv c) ≡ true) × (keys c ≡ key)
  unfolding act
  Move-entries signals q key c d = ground (
    arith,
    entries key c,
    lookup-insert (keys i) key i yc.fetchings,
    lookup-delete (keys i) key yc.fetchings,
    eq_iff (keys i) key,
  )
  Move-entries mv q key c d = ground (
    arith,
    entries key c,
    lookup-insert (keys i) key i yc.fetchings,
    lookup-delete (keys i) key yc.fetchings,
    eq_iff (keys i) key,
  )

  Move-waiters :
      {p : Pc} (mv : Move (keys i) yc p)
      → pc i ≡ p
      → (j c : ℕ) → pc' mv j ≡ waiting c
      → ((((yc' mv).calls c).done ≡ true) ⊎ (is_due (pc' mv c) ≡ true)) × (keys c ≡ keys j)
  unfolding act
  Move-waiters signals q j c d = ground (arith, waiters j c, entries (keys i) c, told c)
  Move-waiters mv q j c d = ground (arith, waiters j c, entries (keys i) c, told c)

  Move-Shared :
      {p : Pc} (mv : Move (keys i) yc p)
      → pc i ≡ p
      → (j c : ℕ) (a : Answer) → pc' mv j ≡ finished (some c) a
      → Shared keys given (yc' mv) j c a
  unfolding act
  Move-Shared signals q j c a d = ground (arith, shared j c a, over c, told i, waiters i c)
  Move-Shared mv q j c a d = ground (arith, guard mv, shared j c a, over c, told i, waiters i c)

  Move-Known :
      {p : Pc} (mv : Move (keys i) yc p)
      → pc i ≡ p
      → (key v : String) → Known keys given yc pc key v
      → Known keys given (yc' mv) (pc' mv) key v
  unfolding act
  Move-Known mv q key v (inl g) = inl g
  Move-Known signals q key v (inr (c, k, past, e)) = inr (c, k, ground arith, ground arith)
  Move-Known mv q key v (inr (c, k, past, e)) = inr (c, k, ground arith, ground arith)

  -- The goroutine that has just gone on.
  mover-Sourced :
      {p : Pc} (mv : Move (keys i) yc p)
      → (a : Answer) → (act i (keys i) yc mv).1 ≡ finished none a
      → Sourced keys given yc pc i a
  unfolding act
  mover-Sourced (gets (hit u) h) a d v e = kept (keys i) v (cc)
  mover-Sourced (gets miss h) a d v e = cc
  mover-Sourced (gets (failure f) h) a d v e = cc
  mover-Sourced locks a d v e = ground arith
  mover-Sourced mv a d v e = ground arith

  Move-Sourced :
      {p : Pc} (mv : Move (keys i) yc p)
      → pc i ≡ p
      → (j : ℕ) (a : Answer) → pc' mv j ≡ finished none a
      → Sourced keys given (yc' mv) (pc' mv) j a
  Move-Sourced mv q j a d v e = elim (Bool-cases (nat_eq i j)) [
    | inl same ↦ Move-Known mv q (keys j) v (
        subst (λ n. Known keys given yc pc (keys n) v) ((nat_eq_iff i j).0 same)
          (mover-Sourced mv a (rw same at d) v e))
    | inr other ↦ Move-Known mv q (keys j) v (sourced j a (rw other at d) v e)
  ]

  -- A value to be stored is the fetch's, without an error.
  stored-Known :
      {ttl : ℕ} (u : String)
      → pc i ≡ fetched ttl
      → to_store (yc.calls i).answer ≡ some u
      → Known keys given yc pc (keys i) u
  stored-Known u q e = inr (i, refl, ground arith, ground arith)

  set-Known :
      {ttl : ℕ} (u : String)
      → pc i ≡ fetched ttl
      → to_store (yc.calls i).answer ≡ some u
      → (key v : String) → lookup key (insert (keys i) u yc.store) ≡ some v
      → Known keys given yc pc key v
  set-Known u q t key v e = elim (Bool-cases (keys i == key)) [
    | inl same ↦
        let value : u ≡ v = ground (arith, lookup-insert (keys i) key u yc.store) in
        subst (λ k. Known keys given yc pc k v) ((eq_iff (keys i) key).0 same)
          (subst (λ w. Known keys given yc pc (keys i) w) value (stored-Known u q t))
    | inr other ↦ kept key v (ground (arith, lookup-insert (keys i) key u yc.store))
  ]

  Move-kept :
      {p : Pc} (mv : Move (keys i) yc p)
      → pc i ≡ p
      → (key v : String) → lookup key (yc' mv).store ≡ some v
      → Known keys given yc pc key v
  unfolding act
  Move-kept (sets false) q key v e = kept key v e
  Move-kept (sets true) q key v e = elim (Option-cases (to_store (yc.calls i).answer)) [
    | inl n ↦ kept key v (rw n at e)
    | inr (u, t) ↦ set-Known u q t key v (rw t at e)
  ]
  Move-kept signals q key v e = kept key v e
  Move-kept locks q key v e = kept key v (ground arith)
  Move-kept (gets r h) q key v e = kept key v (ground arith)
  Move-kept mv q key v e = kept key v e

  pub Move-Inv : {p : Pc} (mv : Move (keys i) yc p) → pc i ≡ p → Inv keys given (yc' mv) (pc' mv)
  Move-Inv mv q = record {
    over = Move-over mv q;
    told = Move-told mv q;
    entries = Move-entries mv q;
    waiters = Move-waiters mv q;
    shared = Move-Shared mv q;
    sourced = Move-Sourced mv q;
    kept = λ key v e. Move-Known mv q key v (Move-kept mv q key v e);
  }
