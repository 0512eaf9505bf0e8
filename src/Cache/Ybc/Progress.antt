-- ===== src/Cache/Ybc/Progress.antt =====
-- The runs in which one goroutine, and the one that it waits for, go on until it has returned.
use ozone.Prelude.{
  ℕ, String, ◌≡◌, inl, inr, refl, Bool, true, false, Option, none, some, arith, Option-cases,
}
use ozone.Prelude.Dict.{lookup}
use ozone.Cache.Null.{Answer, Fetched}
use ozone.Cache.Ybc.{
  crashed, Pc, idle, missed, waiting, fetching, fetched, stored, signalled, finished, hit, miss,
  update,
}
use ozone.Cache.Ybc.Runs.{
  Move, gets, locks, fetches, sets, signals, deletes, wakes, act, System, Step, goes, Steps, ends,
  then_step, Reachable,
}
use ozone.Cache.Ybc.Invariant.{works, Inv}
use ozone.Cache.Ybc.Invariant.Moves.{Move-Inv}
use ozone.Cache.Ybc.NoCrash.{due-works, NoCrash, Move-NoCrash, Reachable-NoCrash}
use ozone.Cache.Ybc.Theorems.{Reachable-Inv}

module _ (keys : ℕ → String) (given : String → String → Bool) where
  abbrev pub Runs : System → System → Type 0
  Runs = Steps keys given false false

  prepended : {s t u : System} → Step keys given false false s t → Runs t u → Runs s u
  prepended st ends = then_step ends st
  prepended st (then_step r last) = then_step (prepended st r) last

  abbrev after : (s : System) (i : ℕ) {p : Pc} → Move (keys i) s.cache p → System
  after s i mv = record {
    cache = (act i (keys i) s.cache mv).0;
    pc = update s.pc i (act i (keys i) s.cache mv).1;
  }

  -- It can come to its return.
  abbrev pub Finishes : System → ℕ → Type 0
  Finishes s i = (t : System) × Runs s t × (o : Option ℕ) × (a : Answer) × (t.pc i ≡ finished o a)

  -- The call of `c` can come to be signalled, while `i` waits.
  abbrev Wakes : System → ℕ → ℕ → Type 0
  Wakes s c i = (t : System) × Runs s t × ((t.cache.calls c).done ≡ true) × (t.pc i ≡ waiting c)

  module _ (i : ℕ) where
    go_on :
        {p : Pc} (s : System) (mv : Move (keys i) s.cache p)
        → s.pc i ≡ p
        → Finishes (after s i mv) i
        → Finishes s i
    go_on s mv e (t, r, o, a, f) = (t, prepended (goes i mv e) r, o, a, f)

    signalled-Finishes : (s : System) → s.pc i ≡ signalled → Finishes s i
    unfolding act
    signalled-Finishes s e = (
      after s i deletes,
      then_step ends (goes i deletes e),
      some i,
      (s.cache.calls i).answer,
      ground arith,
    )

    stored-Finishes : (s : System) → s.pc i ≡ stored → Finishes s i
    unfolding act
    stored-Finishes s e = go_on s signals e (signalled-Finishes (after s i signals) (ground arith))

    fetched-Finishes : (s : System) (ttl : ℕ) → s.pc i ≡ fetched ttl → Finishes s i
    unfolding act
    fetched-Finishes s ttl e =
        go_on s (sets {ttl = ttl} true) e
          (stored-Finishes (after s i (sets {ttl = ttl} true)) (ground arith))

    fetching-Finishes : Fetched → (s : System) → s.pc i ≡ fetching → Finishes s i
    unfolding act
    fetching-Finishes f s e =
        go_on s (fetches f) e (fetched-Finishes (after s i (fetches f)) f.ttl (ground arith))

    module _ (c : ℕ) where
      go_on_waiting :
          {p : Pc} (s : System) (mv : Move (keys c) s.cache p)
          → s.pc c ≡ p
          → Wakes (after s c mv) c i
          → Wakes s c i
      go_on_waiting s mv e (t, r, d, w) = (t, prepended (goes c mv e) r, d, w)

      stored-Wakes : (s : System) → s.pc c ≡ stored → s.pc i ≡ waiting c → Wakes s c i
      unfolding act
      stored-Wakes s e w =
          (after s c signals, then_step ends (goes c signals e), ground arith, ground arith)

      fetched-Wakes :
          (s : System) (ttl : ℕ) → s.pc c ≡ fetched ttl → s.pc i ≡ waiting c → Wakes s c i
      unfolding act
      fetched-Wakes s ttl e w =
          go_on_waiting s (sets {ttl = ttl} true) e
            (stored-Wakes (after s c (sets {ttl = ttl} true)) (ground arith) (ground arith))

      fetching-Wakes : Fetched → (s : System) → s.pc c ≡ fetching → s.pc i ≡ waiting c → Wakes s c i
      unfolding act
      fetching-Wakes f s e w =
          go_on_waiting s (fetches f) e
            (fetched-Wakes (after s c (fetches f)) f.ttl (ground arith) (ground arith))

      working-Wakes :
          Fetched
          → (s : System) (p : Pc) → s.pc c ≡ p
          → works p ≡ true
          → s.pc i ≡ waiting c
          → Wakes s c i
      working-Wakes f s fetching e h w = fetching-Wakes f s e w
      working-Wakes f s (fetched ttl) e h w = fetched-Wakes s ttl e w
      working-Wakes f s stored e h w = stored-Wakes s e w
      working-Wakes f s idle e h w = cc
      working-Wakes f s p e h w = cc

      woken-Finishes :
          (s : System) → (s.cache.calls c).done ≡ true → s.pc i ≡ waiting c → Finishes s i
      unfolding act
      woken-Finishes s d w = (
        after s i (wakes d),
        then_step ends (goes i (wakes d) w),
        some c,
        (s.cache.calls c).answer,
        ground arith,
      )

      waiting-Finishes :
          Fetched
          → (s : System) → Inv keys given s.cache s.pc
          → NoCrash s.pc
          → s.pc i ≡ waiting c
          → Finishes s i
      waiting-Finishes f s inv nc w = elim (inv.waiters i c w).0 [
        | inl d ↦ woken-Finishes s d w
        | inr h ↦
            let (t, r, d, w') = working-Wakes f s (s.pc c) refl (due-works (s.pc c) (nc c) h) w in
            let (u, q, o, a, z) = woken-Finishes t d w' in (u, trans r q, o, a, z)
      ]
        where
          trans : {s t u : System} → Runs s t → Runs t u → Runs s u
          trans r ends = r
          trans r (then_step q st) = then_step (trans r q) st

    missed-Finishes :
        Fetched
        → (s : System) → Inv keys given s.cache s.pc
        → NoCrash s.pc
        → s.pc i ≡ missed
        → Finishes s i
    unfolding act
    missed-Finishes f s inv nc e =
        let next = after s i locks in
        elim (Option-cases (lookup (keys i) s.cache.fetchings)) [
          | inl n ↦ go_on s locks e (fetching-Finishes f (after s i locks) (ground arith))
          | inr (c, h) ↦ go_on s locks e (
              waiting-Finishes c f (after s i locks) (Move-Inv keys given inv i locks e)
                (Move-NoCrash keys given s.cache s.pc nc i locks) (ground arith))
        ]

    idle-Finishes :
        Fetched
        → (s : System) → Inv keys given s.cache s.pc
        → NoCrash s.pc
        → s.pc i ≡ idle
        → Finishes s i
    unfolding act
    idle-Finishes f s inv nc e = elim (Option-cases (lookup (keys i) s.cache.store)) [
      | inr (v, h) ↦ (
        after s i (gets (hit v) h),
        then_step ends (goes i (gets (hit v) h) e),
        none,
        record { value = some v; err = none },
        ground arith,
      )
      | inl h ↦ go_on s (gets miss h) e (
          missed-Finishes f (after s i (gets miss h)) (Move-Inv keys given inv i (gets miss h) e)
            (Move-NoCrash keys given s.cache s.pc nc i (gets miss h)) (ground arith))
    ]

    place-Finishes :
        Fetched
        → (s : System) → Inv keys given s.cache s.pc
        → NoCrash s.pc
        → (p : Pc) → s.pc i ≡ p
        → Finishes s i
    place-Finishes f s inv nc idle e = idle-Finishes f s inv nc e
    place-Finishes f s inv nc missed e = missed-Finishes f s inv nc e
    place-Finishes f s inv nc (waiting c) e = waiting-Finishes c f s inv nc e
    place-Finishes f s inv nc fetching e = fetching-Finishes f s e
    place-Finishes f s inv nc (fetched ttl) e = fetched-Finishes s ttl e
    place-Finishes f s inv nc stored e = stored-Finishes s e
    place-Finishes f s inv nc signalled e = signalled-Finishes s e
    place-Finishes f s inv nc (finished o a) e = (s, ends, o, a, e)
    place-Finishes f s inv nc crashed e = absurd (nc i e)

  -- If no fetcher panics: from every state that the goroutines reach, with calls of Clear or
  -- without, and wherever a goroutine stands, there is a run to its return, if the fetches return:
  -- nobody waits for a call that no one can signal.
  pub can_finish :
      {cleared : Bool} {s : System}
      → Reachable keys given cleared false s
      → (i : ℕ) → Fetched
      → Finishes s i
  can_finish {s = s} r i f =
      place-Finishes i f s (Reachable-Inv keys given r) (Reachable-NoCrash keys given r) (s.pc i)
        refl
