-- ===== src/Cache/Ybc/Alone.antt =====
-- GetAndStore of a goroutine that no other interrupts.
use ozone.Prelude.{
  ℕ, nat_eq, String, ◌==◌, eq_iff, eq_refl, ◌≡◌, refl, sym, subst, fun_ext, ap, ◌∙◌, Bool, true,
  Option, none, some, arith, Option-cases, is_some, if◌then◌else◌, inl, inr,
}
use ozone.Prelude.Dict.{Dict, lookup, insert, delete, lookup-insert, lookup-delete}
use ozone.Cache.Null.{Answer, Fetched}
use ozone.Cache.Ybc.{
  YbcCache, Pc, missed, fetching, finished, GetResult, hit, miss, to_store, join_or_make, ybc_get,
  get_section, lock_section, fetch_section, set_section, done_section, delete_section,
}

abbrev pub then_fetch : ℕ → String → Fetched → Bool → YbcCache × Pc → YbcCache × Pc
then_fetch i key f taken (yc, fetching) =
    let (yc1, p1) = fetch_section i f yc in
    let (yc2, p2) = set_section i key taken yc1 in
    let (yc3, p3) = done_section i yc2 in delete_section i key yc3
then_fetch i key f taken (yc, p) = (yc, p)

abbrev then_lock : ℕ → String → Fetched → Bool → YbcCache × Pc → YbcCache × Pc
then_lock i key f taken (yc, missed) = then_fetch i key f taken (lock_section i key yc)
then_lock i key f taken (yc, p) = (yc, p)

-- GetAndStore: `r` is what the cache below gives, `f` what the fetcher gives, and `taken` tells
-- whether Set stores the value.
unfoldable pub get_and_store : ℕ → String → GetResult → Fetched → Bool → YbcCache → YbcCache × Pc
unfolding get_section lock_section fetch_section set_section done_section delete_section
get_and_store i key r f taken yc = then_lock i key f taken (get_section key r yc)

-- What a cache below that has lost nothing gives.
abbrev pub read : Option String → GetResult
read (some v) = hit v
read none = miss

abbrev pub returned : Pc → Option Answer
returned (finished c a) = some a
returned p = none

-- What is held under each key.
abbrev pub held : Dict String → String → Option String
held store k = lookup k store

abbrev pub remember : String → Option String → (String → Option String) → String → Option String
remember key none h = h
remember key (some v) h = λ k. if key == k then some v else h k

-- The value to keep of an answer: of one with an error none.
abbrev pub kept : Answer → Option String
kept a = if is_some a.err then none else a.value

to_store-kept : (a : Answer) → to_store a ≡ kept a
to_store-kept a = elim (Option-cases a.err) [ inl e ↦ rw e refl | inr (s, e) ↦ rw e refl ]

abbrev pub answer_or_fetch :
    Option String → String → Fetched → (String → Option String) → (String → Option String) × Answer
answer_or_fetch (some v) key f h = (h, record { value = some v; err = none })
answer_or_fetch none key f h = (remember key (kept f.answer) h, f.answer)

-- The specification: the value that is held under the key, else the fetcher's answer, whose value
-- is held from then on if it has one and no error.
abbrev pub look_aside :
    String → Fetched → (String → Option String) → (String → Option String) × Answer
look_aside key f h = answer_or_fetch (h key) key f h

fetchings-restored :
    (i : ℕ) (key k : String) (m : Dict ℕ)
    → lookup key m ≡ none
    → lookup k (delete key (insert key i m)) ≡ lookup k m
fetchings-restored i key k m n =
    ground (arith, lookup-delete key k (insert key i m), lookup-insert key k i m, eq_iff key k)

pub nat_eq_same : (i : ℕ) → nat_eq i i ≡ true
nat_eq_same i = ground arith

held-insert :
    (key v : String) (m : Dict String) → held (insert key v m) ≡ remember key (some v) (held m)
held-insert key v m = fun_ext (λ k. lookup-insert key k v m)

-- From the making of the call on.
fetch_lem :
    (i : ℕ) (key : String) (f : Fetched) (yc : YbcCache)
    → let (yc', p) = then_fetch i key f true (join_or_make none i key yc) in
      (held yc'.store ≡ remember key (to_store f.answer) (held yc.store))
      × (returned p ≡ some f.answer)
      × (yc'.fetchings ≡ delete key (insert key i yc.fetchings))
unfolding get_and_store
fetch_lem i key f yc = rw (nat_eq_same i) (elim (Option-cases (to_store f.answer)) [
  | inl t ↦ rw (t, nat_eq_same i) (refl, refl, refl)
  | inr (v, t) ↦ rw (t, nat_eq_same i) (held-insert key v yc.store, refl, refl)
])

miss-get_and_store :
    (i : ℕ) (key : String) (f : Fetched) (yc : YbcCache)
    → lookup key yc.fetchings ≡ none
    → then_fetch i key f true (join_or_make none i key (ybc_get miss yc))
      ≡ get_and_store i key miss f true yc
unfolding get_and_store
miss-get_and_store i key f yc n =
    ap (λ o. then_fetch i key f true (join_or_make o i key (ybc_get miss yc))) (sym n)

-- The cache has done to the entries what the specification does and has returned its answer, and
-- the calls in the map are those from before.
abbrev pub Implements : (String → Option String) × Answer → YbcCache → YbcCache × Pc → Type 0
Implements (h, a) yc (yc', p) =
    (held yc'.store ≡ h)
    × (returned p ≡ some a)
    × ((k : String) → lookup k yc'.fetchings ≡ lookup k yc.fetchings)

read-Implements :
    (o : Option String) (i : ℕ) (key : String) (f : Fetched) (yc : YbcCache)
    → lookup key yc.fetchings ≡ none
    → Implements
        (answer_or_fetch o key f (held yc.store))
        yc
        (get_and_store i key (read o) f true yc)
unfolding get_and_store
read-Implements (some v) i key f yc n = (refl, refl, λ k. refl)
read-Implements none i key f yc n =
    let (h, a, m) = fetch_lem i key f (ybc_get miss yc) in
    let h' = h ∙ ap (λ o. remember key o (held yc.store)) (to_store-kept f.answer) in
    subst (Implements (answer_or_fetch none key f (held yc.store)) yc)
      (miss-get_and_store i key f yc n)
      (h', a, λ k. ap (lookup k) m ∙ fetchings-restored i key k yc.fetchings n)

-- Uninterrupted, with no call of its key in the map and a cache below that keeps what it is given,
-- GetAndStore does to the entries what the specification does and returns its answer, and it leaves
-- the calls in the map as they were.
pub get_and_store-Implements :
    (i : ℕ) (key : String) (f : Fetched) (yc : YbcCache)
    → lookup key yc.fetchings ≡ none
    → Implements
        (look_aside key f (held yc.store))
        yc
        (get_and_store i key (read (lookup key yc.store)) f true yc)
get_and_store-Implements i key f yc n = read-Implements (lookup key yc.store) i key f yc n

-- After an uninterrupted GetAndStore whose fetch gave a value and no error, and whose cache below
-- keeps what it is given, a second one of the same key returns that value, whatever its fetcher
-- gives, and leaves the entries as they were.
pub get_and_store_again :
    (i j : ℕ) (key v : String) (f g : Fetched) (yc : YbcCache)
    → lookup key yc.fetchings ≡ none
    → lookup key yc.store ≡ none
    → f.answer ≡ record { value = some v; err = none }
    → let (yc', p) = get_and_store i key miss f true yc in
      let (yc'', q) = get_and_store j key (read (lookup key yc'.store)) g true yc' in
      (returned q ≡ some (record { value = some v; err = none }))
      × (held yc''.store ≡ held yc'.store)
get_and_store_again i j key v f g yc n e a =
    let first = get_and_store i key miss f true yc in
    let (h, r, m) = read-Implements none i key f yc n in
    let there : lookup key first.0.store ≡ some v =
      ground (arith, ap (λ k. k key) h, ap kept a, eq_refl key) in
    let (held_again, value, same_calls) = get_and_store-Implements j key g first.0 (m key ∙ n) in
    let found = ap (λ o. answer_or_fetch o key g (held first.0.store)) there in
    (value ∙ ap (λ x. some x.1) found, held_again ∙ ap (λ x. x.0) found)
