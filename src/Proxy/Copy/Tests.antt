-- ===== src/Proxy/Copy/Tests.antt =====
-- Copies of small bodies.
use ozone.Prelude.{ℕ, ◌≡◌, refl, List, [], ◌∷◌, ◌++◌, none, some}
use ozone.Prelude.Lists.{length}
use ozone.Prelude.Outcome.{returns}
use ozone.Proxy.Copy.{eof, read_stopped, write_failed, Wrote, copy_buffer}
use ozone.Proxy.Copy.Laws.{going_on, copy_buffer_lem}

abbrev accept : List ℕ → List ℕ → Wrote (List ℕ)
accept w bytes = record { count = length bytes; err = none; after = w ++ bytes }

abbrev refuse : List ℕ → List ℕ → Wrote (List ℕ)
refuse w bytes = record { count = 1; err = some "closed"; after = w }

refused :
    copy_buffer refuse (going_on (7 ∷ 8 ∷ []) ∷ []) 0 []
    ≡ returns (record { written = 1; stopped = write_failed "closed"; after = [] })
unfolding copy_buffer
refused = refl

copy_buffer_example :
    copy_buffer accept
      (going_on (7 ∷ 8 ∷ []) ∷ going_on [] ∷ record { bytes = 9 ∷ []; err = some eof } ∷ [])
      0
      []
    ≡ returns (record { written = 3; stopped = read_stopped eof; after = 7 ∷ 8 ∷ 9 ∷ [] })
copy_buffer_example =
    copy_buffer_lem accept (λ w bytes. refl) ((7 ∷ 8 ∷ []) ∷ [] ∷ []) (9 ∷ []) eof []
