-- ===== src/Proxy/Flush/Laws.antt =====
-- The mutex of the writer, and the end of its two goroutines.
use ozone.Prelude.{
  ℕ, String, ◌≡◌, refl, ap, ◌∙◌, Bool, true, false, ◌&&◌, ◌||◌, Option, some, List, arith,
}
use ozone.Proxy.Copy.{Wrote}
use ozone.Proxy.Flush.{
  Copier, outside, locking, writing, sending, left, Loop, selecting, ticked, flushing, exited,
  MaxLatencyWriter, max_latency_writer, call_write, lock_write, end_write, tick, lock_flush,
  end_flush, call_stop, receive_done, Turn, calls, locks, writes, ticks, takes, flushes, stops,
  receives, Turns, ends, then_turn,
}

abbrev pub in_write : Copier → Bool
in_write (writing p) = true
in_write w = false

abbrev pub in_flush : Loop → Bool
in_flush flushing = true
in_flush l = false

abbrev pub has_left : Copier → Bool
has_left left = true
has_left w = false

abbrev has_exited : Loop → Bool
has_exited exited = true
has_exited l = false

-- The mutex is locked exactly while one of them is inside, both are never inside, and they end
-- together.
abbrev Inv : {W : Type 0} → MaxLatencyWriter W → Type 0
Inv m =
    (m.mu ≡ (in_write m.writer || in_flush m.loop))
    × ((in_write m.writer && in_flush m.loop) ≡ false)
    × (has_left m.writer ≡ has_exited m.loop)

start-Inv :
    {W : Type 0} (interval : ℕ) (flusher : Bool) (dst : W) {m : MaxLatencyWriter W}
    → max_latency_writer interval flusher dst ≡ some m
    → Inv m
unfolding max_latency_writer
start-Inv interval flusher dst e = ground (arith, e)

module _ {W : Type 0} (write : W → List ℕ → Wrote W) (flush : W → W) where
  Turn-Inv : {m t : MaxLatencyWriter W} → Inv m → Turn write flush m t → Inv t
  unfolding call_write lock_write end_write tick lock_flush end_flush call_stop receive_done
  Turn-Inv (h, a, g) (calls p w) = ground arith
  Turn-Inv (h, a, g) (locks p w f) = ground arith
  Turn-Inv (h, a, g) (writes p w) = ground arith
  Turn-Inv (h, a, g) (ticks l) = ground arith
  Turn-Inv (h, a, g) (takes l f) = ground arith
  Turn-Inv (h, a, g) (flushes l) = ground arith
  Turn-Inv (h, a, g) (stops w) = ground arith
  Turn-Inv (h, a, g) (receives w l) = ground arith

  Turns-Inv : {m t : MaxLatencyWriter W} → Inv m → Turns write flush m t → Inv t
  Turns-Inv h ends = h
  Turns-Inv h (then_turn r s) = Turn-Inv (Turns-Inv h r) s

  -- There is no turn once stop has returned.
  Turn-left :
      {m t : MaxLatencyWriter W}
      → Inv m
      → has_left m.writer ≡ true
      → Turn write flush m t
      → has_left t.writer ≡ true × (t ≡ m)
  Turn-left (h, a, g) e (calls p w) = ground arith
  Turn-left (h, a, g) e (locks p w f) = ground arith
  Turn-left (h, a, g) e (writes p w) = ground arith
  Turn-left (h, a, g) e (ticks l) = ground arith
  Turn-left (h, a, g) e (takes l f) = ground arith
  Turn-left (h, a, g) e (flushes l) = ground arith
  Turn-left (h, a, g) e (stops w) = ground arith
  Turn-left (h, a, g) e (receives w l) = ground arith

  Turns-left :
      {m t : MaxLatencyWriter W} → Inv m → has_left m.writer ≡ true → Turns write flush m t → t ≡ m
  Turns-left h e ends = refl
  Turns-left h e (then_turn r s) =
      let same = Turns-left h e r in
      (Turn-left (Turns-Inv h r) (ap (λ u. has_left u.writer) same ∙ e) s).1 ∙ same

  Turns-trans :
      {m s t : MaxLatencyWriter W}
      → Turns write flush m s
      → Turns write flush s t
      → Turns write flush m t
  Turns-trans r ends = r
  Turns-trans r (then_turn q s) = then_turn (Turns-trans r q) s

  -- The place that the writer comes to.
  abbrev pub Leaves : MaxLatencyWriter W → Type 0
  Leaves m = (t : MaxLatencyWriter W) × Turns write flush m t × (t.writer ≡ left)

  continued : {m s : MaxLatencyWriter W} → Turns write flush m s → Leaves s → Leaves m
  continued r (t, q, e) = (t, Turns-trans r q, e)

  begun : {m s : MaxLatencyWriter W} → Turn write flush m s → Leaves s → Leaves m
  begun s = continued (then_turn ends s)

  sending-Leaves :
      (m : MaxLatencyWriter W) (l : Loop) → m.loop ≡ l → m.writer ≡ sending → Inv m → Leaves m
  unfolding call_write lock_write end_write tick lock_flush end_flush call_stop receive_done
  sending-Leaves m selecting l w h = (_, then_turn ends (receives w l), refl)
  sending-Leaves m ticked l w h =
      begun (takes l (ground arith))
        (begun (flushes refl) (_, then_turn ends (receives w refl), refl))
  sending-Leaves m flushing l w h = begun (flushes l) (_, then_turn ends (receives w refl), refl)
  sending-Leaves m exited l w h = ground arith

  outside-Leaves :
      (m : MaxLatencyWriter W) {n : ℕ} {e : Option String}
      → m.writer ≡ outside n e
      → Inv m
      → Leaves m
  unfolding call_stop
  outside-Leaves m w h =
      begun (stops w) (sending-Leaves (call_stop m) m.loop refl refl (Turn-Inv {m = m} h (stops w)))

  writing-Leaves : (m : MaxLatencyWriter W) (p : List ℕ) → m.writer ≡ writing p → Inv m → Leaves m
  unfolding end_write
  writing-Leaves m p w h =
      begun (writes p w)
        (outside-Leaves (end_write write p m) refl (Turn-Inv {m = m} h (writes p w)))

  free-Leaves :
      (m : MaxLatencyWriter W) (p : List ℕ) → m.writer ≡ locking p → m.mu ≡ false → Inv m → Leaves m
  unfolding lock_write
  free-Leaves m p w f h =
      begun (locks p w f)
        (writing-Leaves (lock_write p m) p refl (Turn-Inv {m = m} h (locks p w f)))

  locking-Leaves :
      (m : MaxLatencyWriter W) (p : List ℕ) (l : Loop)
      → m.loop ≡ l
      → m.writer ≡ locking p
      → Inv m
      → Leaves m
  unfolding end_flush
  locking-Leaves m p flushing l w h =
      begun (flushes l) (free-Leaves (end_flush flush m) p w refl (Turn-Inv {m = m} h (flushes l)))
  locking-Leaves m p selecting l w h = free-Leaves m p w (ground arith) h
  locking-Leaves m p ticked l w h = free-Leaves m p w (ground arith) h
  locking-Leaves m p exited l w h = ground arith

  Inv-Leaves : (m : MaxLatencyWriter W) (w : Copier) → m.writer ≡ w → Inv m → Leaves m
  Inv-Leaves m (outside n e) w h = outside-Leaves m w h
  Inv-Leaves m (locking p) w h = locking-Leaves m p m.loop refl w h
  Inv-Leaves m (writing p) w h = writing-Leaves m p w h
  Inv-Leaves m sending w h = sending-Leaves m m.loop refl w h
  Inv-Leaves m left w h = (m, ends, w)

  -- In every interleaving, the two goroutines are never both between Lock and Unlock; there are
  -- turns after which stop has returned, so that no Lock and no send waits for ever; and once stop
  -- has returned nothing changes any more: no flush comes later.
  pub max_latency_writer_lem :
      (interval : ℕ) (flusher : Bool) (dst : W) {m s : MaxLatencyWriter W}
      → max_latency_writer interval flusher dst ≡ some m
      → Turns write flush m s
      → ((in_write s.writer && in_flush s.loop) ≡ false)
        × Leaves s
        × (has_left s.writer ≡ true → (t : MaxLatencyWriter W) → Turns write flush s t → t ≡ s)
  max_latency_writer_lem interval flusher dst {s = s} e r =
      let h = Turns-Inv (start-Inv interval flusher dst e) r in
      (h.1, Inv-Leaves s s.writer refl h, λ l t q. Turns-left h l q)
