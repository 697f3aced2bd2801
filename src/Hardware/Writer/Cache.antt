-- ===== src/Hardware/Writer/Cache.antt =====
-- How WriterThread keeps the cache in step with the memory that the DMA engine writes.
use mzntapp_cpp.Base.{
  ℕ, ◌+◌, ◌-◌, ◌*◌, ◌%◌, ◌^◌, ◌≤◌, ◌<◌, ◌≡◌, refl, ◌∙◌, ap, Bool, true, false, arith, if◌then◌else◌,
  List, [], ◌∷◌, some, All,
}
use mzntapp_cpp.Hardware.Calls.{buffer_bytesize, ddr_q_size}
use mzntapp_cpp.Hardware.Writer.{
  Config, Writer, Sync, set_dir, set_size, set_offset, for_cpu, slot_offset, start, break_files,
  write_block, check_limits, maybe_break, goes_on, round, run,
}
use mzntapp_cpp.Hardware.Writer.Sizes.{live}

-- Slot `k` of the ring, popped with `m_writeOn` as given.
abbrev pub slots : ℕ → List (Bool × ℕ) → List (Bool × ℕ)
slots base [] = []
slots base ((on, k) ∷ ks) = (on, base + k * buffer_bytesize) ∷ slots base ks

-- What is to happen for the slots: the offset of each in the DMA buffer, and then the call that
-- makes the CPU see it.
abbrev pub syncs : List Sync → List (Bool × ℕ) → List Sync
syncs after [] = after
syncs after ((on, k) ∷ ks) = syncs (for_cpu ∷ set_offset (k * buffer_bytesize) ∷ after) ks

-- The ring lies in the address space.
abbrev pub InRing : Bool × ℕ → Type 0
InRing (on, k) = k < ddr_q_size

offset_of_slot :
    (base k : ℕ)
    → base + ddr_q_size * buffer_bytesize ≤ 2 ^ 32
    → k < ddr_q_size
    → (base + k * buffer_bytesize + 2 ^ 32 - base) % 2 ^ 32 ≡ k * buffer_bytesize
offset_of_slot base k room h = omega (arith, room, h)

maybe_break-synced : (c : Config) (w : Writer) → (maybe_break c w).synced ≡ w.synced
unfolding maybe_break break_files
maybe_break-synced c w = broken w.break_signal
  where
    broken : (b : Bool) → (if b then break_files c w else w).synced ≡ w.synced
    broken true = refl
    broken false = refl

round-synced :
    (c : Config) (on : Bool) (p : ℕ) (w : Writer)
    → (w' : Writer) × (round c on (some p) w ≡ goes_on w')
      × (w'.synced ≡ for_cpu ∷ set_offset (slot_offset c p) ∷ w.synced)
unfolding round check_limits write_block
round-synced c true p w =
    (_, refl, ap (λ l. for_cpu ∷ set_offset (slot_offset c p) ∷ l) (maybe_break-synced c w))
round-synced c false p w =
    (_, refl, ap (λ l. for_cpu ∷ set_offset (slot_offset c p) ∷ l) (maybe_break-synced c w))

module _ (c : Config) (room : c.ddr_base + ddr_q_size * buffer_bytesize ≤ 2 ^ 32) where
  run-syncs :
      (ks : List (Bool × ℕ)) (w : Writer)
      → All InRing ks
      → (run c (live (slots c.ddr_base ks)) w).synced ≡ syncs w.synced ks
  unfolding run
  run-syncs [] w h = refl
  run-syncs ((on, k) ∷ ks) w (h, hs) =
      let (w', e, s) = round-synced c on (c.ddr_base + k * buffer_bytesize) w in
      let t : w'.synced ≡ for_cpu ∷ set_offset (k * buffer_bytesize) ∷ w.synced =
        s ∙ ap (λ o. for_cpu ∷ set_offset o ∷ w.synced) (offset_of_slot c.ddr_base k room h) in
      rw (e, run) (run-syncs ks w' hs ∙ ap (λ l. syncs l ks) t)

-- For any slots of the ring in any order, with writing on or not and over file breaks, WriterThread
-- sets the direction and the size of a block once, and then for each slot, in the order in which it
-- popped them, the offset at which the slot stands in the DMA buffer, and synchronises it.
pub synced-run :
    (c : Config) (ks : List (Bool × ℕ))
    → c.ddr_base + ddr_q_size * buffer_bytesize ≤ 2 ^ 32
    → All InRing ks
    → (run c (live (slots c.ddr_base ks)) (start c)).synced
      ≡ syncs (set_size buffer_bytesize ∷ set_dir ∷ []) ks
unfolding start
synced-run c ks room h = run-syncs c room ks (start c) h
