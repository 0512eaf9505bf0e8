-- ===== src/Proxy/Copy/Laws.antt =====
-- What copyBuffer copies.
use ozone.Prelude.{
  ℕ, ◌+◌, ◌≡◌, refl, sym, ap, ◌∙◌, true, none, some, List, [], ◌∷◌, ◌++◌, map, nat_eq, arith,
  append_assoc, append-nil,
}
use ozone.Prelude.Lists.{length, length-append}
use ozone.Prelude.Outcome.{Outcome, returns}
use ozone.Proxy.Copy.{ReadError, Read, read_stopped, Wrote, Copied, write_some, settle, copy_buffer}

-- A read without an error.
abbrev pub going_on : List ℕ → Read
going_on bytes = record { bytes = bytes; err = none }

abbrev pub all_bytes : List (List ℕ) → List ℕ
all_bytes [] = []
all_bytes (b ∷ bs) = b ++ all_bytes bs

-- A destination that takes all bytes of a call and has them at its end.
abbrev pub Accepts : (List ℕ → List ℕ → Wrote (List ℕ)) → Type 0
Accepts write =
    (w bytes : List ℕ)
    → write w bytes ≡ record { count = length bytes; err = none; after = w ++ bytes }

abbrev ended : ℕ → ReadError → List ℕ → Outcome (Copied (List ℕ))
ended n e w = returns (record { written = n; stopped = read_stopped e; after = w })

same : {n m : ℕ} {v w : List ℕ} (e : ReadError) → n ≡ m → v ≡ w → ended n e v ≡ ended m e w
same e p q = λ i. ended (p i) e (q i)

nat_eq_refl : (n : ℕ) → nat_eq n n ≡ true
nat_eq_refl n = ground arith

module _ (write : List ℕ → List ℕ → Wrote (List ℕ)) (accepts : Accepts write) where
  -- What an accepted call returns.
  abbrev taken : ℕ → List ℕ → Wrote (List ℕ)
  taken n w = record { count = n; err = none; after = w }

  write_some-all :
      (w bytes : List ℕ)
      → write_some write w bytes ≡ record { count = length bytes; err = none; after = w ++ bytes }
  write_some-all w [] = ap (taken 0) (sym (append-nil w))
  write_some-all w (b ∷ bs) = accepts w (b ∷ bs)

  copy_step :
      (r : Read) (reads : List Read) (written : ℕ) (w : List ℕ)
      → copy_buffer write (r ∷ reads) written w ≡ (elim r.err [
        | some e ↦ returns (record {
          written = written + length r.bytes;
          stopped = read_stopped e;
          after = w ++ r.bytes;
        })
        | none ↦ copy_buffer write reads (written + length r.bytes) (w ++ r.bytes)
      ])
  unfolding copy_buffer
  copy_step r reads written w =
      ap
        (λ (o : Wrote (List ℕ)).
          settle write r written o (copy_buffer write reads (written + o.count) o.after))
        (write_some-all w r.bytes)
      ∙ rw (nat_eq_refl (length r.bytes)) refl

  copy_from :
      (before : List (List ℕ)) (last : List ℕ) (e : ReadError) (reads : List Read) (written : ℕ)
      (w : List ℕ)
      → copy_buffer write
          (map going_on before ++ record { bytes = last; err = some e } ∷ reads)
          written
          w
        ≡ returns (record {
          written = written + length (all_bytes before ++ last);
          stopped = read_stopped e;
          after = w ++ (all_bytes before ++ last);
        })
  copy_from [] last e reads written w =
      copy_step (record { bytes = last; err = some e }) reads written w
  copy_from (b ∷ before) last e reads written w =
      copy_step (going_on b) (map going_on before ++ record { bytes = last; err = some e } ∷ reads)
        written w
      ∙ copy_from before last e reads (written + length b) (w ++ b)
      ∙ same e
          (omega (
            arith,
            length-append b (all_bytes before ++ last),
            ap length (append_assoc b (all_bytes before) last),
          ))
          (append_assoc w b (all_bytes before ++ last)
            ∙ ap (λ t. w ++ t) (sym (append_assoc b (all_bytes before) last)))

  -- With a destination that takes all it is given, copyBuffer returns at the first read that gives
  -- an error; it has then written the bytes of all reads up to that one, its own included, in order,
  -- counts them, and returns that error.
  pub copy_buffer_lem :
      (before : List (List ℕ)) (last : List ℕ) (e : ReadError) (reads : List Read)
      → copy_buffer write
          (map going_on before ++ record { bytes = last; err = some e } ∷ reads)
          0
          []
        ≡ returns (record {
          written = length (all_bytes before ++ last);
          stopped = read_stopped e;
          after = all_bytes before ++ last;
        })
  copy_buffer_lem before last e reads =
      copy_from before last e reads 0 [] ∙ same e (omega arith) refl
