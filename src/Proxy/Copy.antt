-- ===== src/Proxy/Copy.antt =====
-- handlers/rproxy/orig_reverseproxy.go, copyBuffer: the copy of a response's body. The bytes of a
-- read are numbers; what the source gives is the list of its reads, and the destination is a state
-- with a function for Write.
pub mod Laws
mod Tests
use ozone.Prelude.{
  ℕ, ◌+◌, String, Bool, true, false, Option, none, some, List, [], ◌∷◌, nat_eq, if◌then◌else◌,
}
use ozone.Prelude.Lists.{length}
use ozone.Prelude.Outcome.{Outcome, returns, exhausted}

-- One call of src.Read: the bytes, and an error, which may be io.EOF.
pub data ReadError : Type 0 where
  eof : ReadError
  broken : String → ReadError

pub record Read : Type 0 where
  pub bytes : List ℕ
  pub err : Option ReadError

-- Why copyBuffer returned.
pub data Stopped : Type 0 where
  read_stopped : ReadError → Stopped
  write_failed : String → Stopped
  short_write : Stopped

-- What dst.Write returns, and the destination after it.
pub record Wrote (W : Type 0) : Type 0 where
  pub count : ℕ
  pub err : Option String
  pub after : W

-- What copyBuffer returns, and the destination after it.
pub record Copied (W : Type 0) : Type 0 where
  pub written : ℕ
  pub stopped : Stopped
  pub after : W

module _ {W : Type 0} (write : W → List ℕ → Wrote W) where
  -- The call of Write, which is left out after a read of no bytes.
  abbrev pub write_some : W → List ℕ → Wrote W
  write_some w [] = record { count = 0; err = none; after = w }
  write_some w (b ∷ bs) = write w (b ∷ bs)

  -- The tests after the call of Write; `rest` is what further rounds give.
  abbrev pub settle : Read → ℕ → Wrote W → Outcome (Copied W) → Outcome (Copied W)
  settle r written o rest =
      let stop : Stopped → Outcome (Copied W) =
        λ s. returns (record { written = written + o.count; stopped = s; after = o.after }) in
      elim o.err [
        | some e ↦ stop (write_failed e)
        | none ↦
            if nat_eq (length r.bytes) o.count
            then elim r.err [ some e ↦ stop (read_stopped e) | none ↦ rest ]
            else stop short_write
      ]

  -- The loop of copyBuffer; it goes on while reads give no error, here to the end of the list.
  unfoldable pub copy_buffer : List Read → ℕ → W → Outcome (Copied W)
  copy_buffer [] written w = exhausted
  copy_buffer (r ∷ reads) written w =
      let o = write_some w r.bytes in
      settle r written o (copy_buffer reads (written + o.count) o.after)
