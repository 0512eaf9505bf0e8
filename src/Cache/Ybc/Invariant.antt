-- ===== src/Cache/Ybc/Invariant.antt =====
-- What holds of the calls and of the goroutines in every interleaving.
pub mod Moves
use ozone.Prelude.{ℕ, String, ◌≡◌, ◌⊎◌, Bool, true, false, Option, none, some}
use ozone.Prelude.Dict.{lookup}
use ozone.Cache.Null.{Answer}
use ozone.Cache.Ybc.{
  crashed, YbcCache, Pc, idle, missed, waiting, fetching, fetched, stored, signalled, finished,
}

-- It has made a call and not signalled it.
abbrev pub works : Pc → Bool
works fetching = true
works (fetched ttl) = true
works stored = true
works _ = false

-- It has made a call and not signalled it, and perhaps never will.
abbrev pub is_due : Pc → Bool
is_due crashed = true
is_due p = works p

-- It has made a call and not deleted it.
abbrev pub leads : Pc → Bool
leads signalled = true
leads p = is_due p

-- Its fetch, if it made one, has returned.
abbrev pub is_past : Pc → Bool
is_past (fetched ttl) = true
is_past stored = true
is_past signalled = true
is_past (finished c a) = true
is_past _ = false

-- Its call, if it made one, is signalled.
abbrev pub is_over : Pc → Bool
is_over signalled = true
is_over (finished c a) = true
is_over _ = false

module _ (keys : ℕ → String) (given : String → String → Bool) where
  -- A caller of Set gives the value for the key, or a fetch for the key has given it and no error.
  abbrev pub Known : YbcCache → (ℕ → Pc) → String → String → Type 0
  Known yc pc key v =
      (given key v ≡ true)
      ⊎ ((c : ℕ) × (keys c ≡ key)
          × (is_past (pc c) ≡ true)
          × ((yc.calls c).answer ≡ record { value = some v; err = none }))

  -- The goroutine has returned the answer of the call of a goroutine with the same key.
  abbrev pub Shared : YbcCache → ℕ → ℕ → Answer → Type 0
  Shared yc i c a = ((yc.calls c).done ≡ true) × (keys c ≡ keys i) × ((yc.calls c).answer ≡ a)

  -- Without a call it has returned no value, or one that is known for its key.
  abbrev pub Sourced : YbcCache → (ℕ → Pc) → ℕ → Answer → Type 0
  Sourced yc pc i a = (v : String) → a.value ≡ some v → Known yc pc (keys i) v

  pub record Inv (yc : YbcCache) (pc : ℕ → Pc) : Type 0 where
    pub over : (c : ℕ) → (yc.calls c).done ≡ true → is_over (pc c) ≡ true
    pub told : (c : ℕ) → pc c ≡ signalled → (yc.calls c).done ≡ true
    pub entries :
        (key : String) (c : ℕ)
        → lookup key yc.fetchings ≡ some c
        → (leads (pc c) ≡ true) × (keys c ≡ key)
    pub waiters :
        (i c : ℕ)
        → pc i ≡ waiting c
        → (((yc.calls c).done ≡ true) ⊎ (is_due (pc c) ≡ true)) × (keys c ≡ keys i)
    pub shared : (i c : ℕ) (a : Answer) → pc i ≡ finished (some c) a → Shared yc i c a
    pub sourced : (i : ℕ) (a : Answer) → pc i ≡ finished none a → Sourced yc pc i a
    pub kept : (key v : String) → lookup key yc.store ≡ some v → Known yc pc key v
