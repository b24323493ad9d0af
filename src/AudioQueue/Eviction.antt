-- ===== src/AudioQueue/Eviction.antt =====
-- `BoundedAudioQueue::try_push` drops the oldest blocks, and no more of them than it has to.
use open_audio.Common.{ℕ, zero, suc, ◌+◌, ◌-◌, ◌/◌, ◌%◌, ◌^◌, ◌<◌, ◌≤◌, ◌≡◌, refl, arith}
use open_audio.Common.{Bool-cases, inl, inr, ltb, if◌then◌else◌}
use open_audio.Common.{List, [], ◌∷◌, length, drop}
use open_audio.AudioQueue.{QueuedAudioBlock, Room, make_room, count_dropped}

-- The samples of the blocks, and their frames.
abbrev pub total : List QueuedAudioBlock → ℕ
total [] = 0
total (b ∷ rest) = length b.samples + total rest

abbrev pub frames_of : ℕ → List QueuedAudioBlock → ℕ
frames_of channels [] = 0
frames_of channels (b ∷ rest) = length b.samples / channels + frames_of channels rest

-- The first `k` blocks are dropped, and fewer would not have been enough.
abbrev pub DropsOldest : ℕ → ℕ → List QueuedAudioBlock → List QueuedAudioBlock → ℕ → Type 0
DropsOldest maximum incoming blocks kept k =
    (kept ≡ drop k blocks) × ((j : ℕ) → j < k → maximum < total (drop j blocks) + incoming)

pub record MadeRoom (channels maximum incoming : ℕ) (blocks : List QueuedAudioBlock) (dropped : ℕ)
    (room : Room) : Type 0 where
  pub exact : room.buffered_samples ≡ total room.blocks
  pub fits : room.buffered_samples + incoming ≤ maximum
  pub recycled_few : room.recycled ≤ 32
  pub oldest : (k : ℕ) × DropsOldest maximum incoming blocks room.blocks k
  pub counted :
      (room.dropped_frames + frames_of channels room.blocks) % 2 ^ 64
      ≡ (dropped + frames_of channels blocks) % 2 ^ 64

drops_one_more :
    (maximum incoming : ℕ) (b : QueuedAudioBlock) (rest kept : List QueuedAudioBlock)
    → maximum < total (b ∷ rest) + incoming
    → (k : ℕ) × DropsOldest maximum incoming rest kept k
    → (k : ℕ) × DropsOldest maximum incoming (b ∷ rest) kept k
drops_one_more maximum incoming b rest kept full (k, (e, least)) =
    let least' : (j : ℕ) → j < suc k → maximum < total (drop j (b ∷ rest)) + incoming =
      λ j. below j in
    (suc k, (e, least'))
  where
    below : (j : ℕ) → j < suc k → maximum < total (drop j (b ∷ rest)) + incoming
    below zero h = full
    below (suc j) h = least j (omega arith)

-- The loop ends with room for the incoming block.
pub make_room-MadeRoom :
    (channels maximum incoming : ℕ) (blocks : List QueuedAudioBlock) (recycled buffered dropped : ℕ)
    → buffered ≡ total blocks
    → incoming ≤ maximum
    → recycled ≤ 32
    → MadeRoom channels maximum incoming blocks dropped
        (make_room channels maximum incoming blocks recycled buffered dropped)
unfolding make_room
make_room-MadeRoom channels maximum incoming [] recycled buffered dropped e h r = record {
  exact = e;
  fits = omega arith;
  recycled_few = r;
  oldest = (0, (refl, λ j lt. absurd (omega arith)));
  counted = refl;
}
make_room-MadeRoom channels maximum incoming (b ∷ rest) recycled buffered dropped e h r =
    let more = if ltb recycled 32 then recycled + 1 else recycled in
    let some_more : more ≤ 32 = ground arith in
    let m =
      make_room-MadeRoom channels maximum incoming rest more (buffered - length b.samples)
        (count_dropped dropped (length b.samples / channels)) (omega arith) h some_more in
    elim (Bool-cases (ltb maximum (buffered + incoming))) [
      | inl full ↦ rw full (record {
        exact = m.exact;
        fits = m.fits;
        recycled_few = m.recycled_few;
        oldest = drops_one_more maximum incoming b rest _ (ground arith) m.oldest;
        counted = omega (arith, m.counted);
      })
      | inr fits ↦ rw fits (record {
        exact = e;
        fits = ground arith;
        recycled_few = r;
        oldest = (0, (refl, λ j lt. absurd (omega arith)));
        counted = refl;
      })
    ]
