-- ===== src/Combine/Slots.antt =====
-- The slots of the combined publisher: what a round takes from each.
use open_audio.Common.{ℕ, zero, suc, ◌+◌, ◌-◌, ◌≤◌, ◌<◌, ◌≡◌, refl, sym, ap, ◌∙◌, leb, arith}
use open_audio.Common.{
  none, some, List, [], ◌∷◌, ◌++◌, map, length, drop, append_assoc, append-nil, Bool-cases, inl,
  inr, Option-cases,
}
use open_audio.AudioQueue.{QueuedAudioBlock}
use open_audio.Combine.{
  OpenedChannel, ChannelSlot, active, skipped, pop_blocks, drain_slot, report_slot, report_drops,
  pending_frames, slot_after,
}

-- The samples of blocks, in order.
abbrev pub samples_of : List QueuedAudioBlock → List ℕ
samples_of [] = []
samples_of (block ∷ blocks) = block.samples ++ samples_of blocks

-- What a channel holds: its pending samples, and those that its queue holds.
abbrev pub held : OpenedChannel → List ℕ
held channel = channel.pending ++ samples_of channel.buffer.blocks

abbrev pub slot_held : ChannelSlot → List ℕ
slot_held skipped = []
slot_held (active channel) = held channel

-- The loop over the blocks moves all the samples and leaves the queue empty.
pop_blocks-held :
    (fuel : ℕ) (expected : List ℕ) (blocks : List QueuedAudioBlock) (channel : OpenedChannel)
    → channel.buffer.blocks ≡ blocks
    → channel.pending ++ samples_of blocks ≡ expected
    → length blocks < fuel
    → ((pop_blocks fuel channel).pending ≡ expected)
      × ((pop_blocks fuel channel).buffer.blocks ≡ [])
pop_blocks-held zero expected blocks channel b e h = absurd (omega arith)
pop_blocks-held (suc fuel) expected [] channel b e h =
    rw b (sym (append-nil channel.pending) ∙ e, refl)
pop_blocks-held (suc fuel) expected (block ∷ rest) channel b e h = rw b (
    pop_blocks-held fuel expected rest _ refl
      (append_assoc channel.pending block.samples (samples_of rest) ∙ e) (omega arith))

-- After the drain a slot holds the same samples, all of them pending.
abbrev pub IsDrained : ChannelSlot → Type 0
IsDrained skipped = Unit {0}
IsDrained (active channel) = channel.buffer.blocks ≡ []

drain_slot-held :
    (slot : ChannelSlot)
    → (slot_held (drain_slot slot) ≡ slot_held slot) × IsDrained (drain_slot slot)
drain_slot-held skipped = (refl, tt)
drain_slot-held (active channel) =
    let (e, b) =
      pop_blocks-held (length channel.buffer.blocks + 1) (held channel) channel.buffer.blocks
        channel refl refl (omega arith) in
    (
      ap
            (λ blocks.
              (pop_blocks (length channel.buffer.blocks + 1) channel).pending ++ samples_of blocks)
            b
          ∙ append-nil _
          ∙ e,
      b,
    )

-- Two lists of slots that hold the same, all of it pending in the second.
abbrev pub Drains : List ChannelSlot → List ChannelSlot → Type 0
Drains [] [] = Unit {0}
Drains (s ∷ slots) (t ∷ drained) =
    ((slot_held t ≡ slot_held s) × IsDrained t) × Drains slots drained
Drains _ _ = ⊥

drain-Drains : (slots : List ChannelSlot) → Drains slots (map drain_slot slots)
drain-Drains [] = tt
drain-Drains (s ∷ slots) = (drain_slot-held s, drain-Drains slots)

report_slot-held :
    (slot before : ChannelSlot)
    → (slot_held slot ≡ slot_held before) × IsDrained slot
    → (slot_held (report_slot slot) ≡ slot_held before) × IsDrained (report_slot slot)
report_slot-held skipped before h = h
report_slot-held (active channel) before h = h

report-Drains :
    (slots drained : List ChannelSlot)
    → Drains slots drained
    → Drains slots (map report_slot drained)
report-Drains [] [] h = tt
report-Drains [] (t ∷ drained) h = absurd h
report-Drains (s ∷ slots) [] h = absurd h
report-Drains (s ∷ slots) (t ∷ drained) (h, k) =
    (report_slot-held t s h, report-Drains slots drained k)

pub report_drops-Drains :
    (now last : ℕ) (slots : List ChannelSlot)
    → Drains slots (report_drops now last (map drain_slot slots))
report_drops-Drains now last slots = elim (Bool-cases (leb 1_000_000_000 (now - last))) [
  | inl e ↦ rw e (report-Drains slots (map drain_slot slots) (drain-Drains slots))
  | inr e ↦ rw e (drain-Drains slots)
]

-- Every active slot has at least so many samples pending.
abbrev pub HaveFrames : ℕ → List ChannelSlot → Type 0
HaveFrames frames [] = Unit {0}
HaveFrames frames (skipped ∷ slots) = HaveFrames frames slots
HaveFrames frames (active channel ∷ slots) =
    (frames ≤ length channel.pending) × HaveFrames frames slots

pub pending-HaveFrames :
    (slots : List ChannelSlot) (frames n : ℕ)
    → pending_frames slots ≡ some n
    → frames ≤ n
    → HaveFrames frames slots
pending-HaveFrames [] frames n e h = tt
pending-HaveFrames (skipped ∷ slots) frames n e h = pending-HaveFrames slots frames n e h
pending-HaveFrames (active channel ∷ slots) frames n e h =
    elim (Option-cases (pending_frames slots)) [
      | inl none_else ↦ (ground (arith, none_else), none-HaveFrames slots frames none_else)
      | inr (m, e') ↦
          (ground (arith, e'), pending-HaveFrames slots frames m e' (ground (arith, e')))
    ]
  where
    none-HaveFrames :
        (slots : List ChannelSlot) (frames : ℕ)
        → pending_frames slots ≡ none
        → HaveFrames frames slots
    none-HaveFrames [] frames e = tt
    none-HaveFrames (skipped ∷ slots) frames e = none-HaveFrames slots frames e
    none-HaveFrames (active channel ∷ slots) frames e = absurd (ground arith)

drop-nil : (n : ℕ) → drop {A = ℕ} n [] ≡ []
drop-nil zero = refl
drop-nil (suc n) = refl

drop-append_le : (n : ℕ) (xs ys : List ℕ) → n ≤ length xs → drop n (xs ++ ys) ≡ drop n xs ++ ys
drop-append_le zero xs ys h = refl
drop-append_le (suc n) [] ys h = absurd (omega arith)
drop-append_le (suc n) (x ∷ xs) ys h = drop-append_le n xs ys (omega arith)

-- What the slots hold after a round that took `frames` from each.
pub slot_after-held :
    (frames : ℕ) (slots drained : List ChannelSlot)
    → Drains slots drained
    → HaveFrames frames drained
    → map slot_held (map (slot_after frames) drained) ≡ map (drop frames) (map slot_held slots)
slot_after-held frames [] [] d h = refl
slot_after-held frames [] (t ∷ drained) d h = absurd d
slot_after-held frames (s ∷ slots) [] d h = absurd d
slot_after-held frames (s ∷ slots) (skipped ∷ drained) ((e, k), d) h =
    rw (sym e, drop-nil frames, slot_after-held frames slots drained d h) refl
slot_after-held frames (s ∷ slots) (active channel ∷ drained) ((e, k), d) (enough, h) =
    rw
      (
        sym e,
        drop-append_le frames channel.pending (samples_of channel.buffer.blocks) enough,
        slot_after-held frames slots drained d h,
      )
      refl
