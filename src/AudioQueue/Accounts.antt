-- ===== src/AudioQueue/Accounts.antt =====
-- What becomes of the frames that are given to a `BoundedAudioQueue`.
use open_audio.Common.{ℕ, ◌+◌, ◌/◌, ◌%◌, ◌^◌, ◌≤◌, ◌≡◌, ◌≢◌, refl, ap, ◌∙◌, arith}
use open_audio.Common.{Bool, true, false, Bool-cases, inl, inr, ltb, ◌==◌, ==_iff, if◌then◌else◌}
use open_audio.Common.{List, [], ◌∷◌, ◌++◌, length}
use open_audio.Common.Outcome.{ok}
use open_audio.AudioQueue.{
  QueuedAudioBlock, BoundedAudioQueue, store, drop_incoming, enter, new_queue, try_push, pop_block,
  recycle_buffer,
}
use open_audio.AudioQueue.Eviction.{total, frames_of, DropsOldest}
use open_audio.AudioQueue.Runs.{
  IsValid, room_for, room_for-MadeRoom, frames_of-append, Call, push, recycle, pop, shut,
  take_dropped, call, call_each, call-IsValid, new_queue-IsValid, new_queue_empty,
}

abbrev block : List ℕ → ℕ → QueuedAudioBlock
block samples timestamp_ns = record { samples = samples; presentation_timestamp_ns = timestamp_ns }

-- A frame-aligned block of at least one frame that is not larger than the capacity, given to an open
-- queue in a valid state whose lock is free, is queued behind the blocks that stay. These fit the
-- capacity together with it; the blocks that go are the oldest, and no more of them than it takes.
pub try_push_stores :
    (q : BoundedAudioQueue) (samples : List ℕ) (timestamp_ns : ℕ)
    → IsValid q
    → q.closed ≡ false
    → length samples % q.channels ≡ 0
    → length samples / q.channels ≢ 0
    → length samples ≤ q.maximum_samples
    → (k : ℕ) × (kept : List QueuedAudioBlock) × DropsOldest q.maximum_samples
        (length samples)
        q.blocks
        kept
        k
      × (total kept + length samples ≤ q.maximum_samples)
      × ((try_push q false samples timestamp_ns).0 ≡ ok true)
      × ((try_push q false samples timestamp_ns).1.blocks ≡ kept ++ block samples timestamp_ns ∷ [])
unfolding try_push
try_push_stores q samples timestamp_ns v c even given fits =
    let m = room_for-MadeRoom q samples v fits in
    let (k, oldest) = m.oldest in
    (
      k,
      (room_for q samples).blocks,
      oldest,
      omega (arith, m.fits, m.exact),
      ground arith,
      ground arith,
    )

-- Both sides count frames up to multiples of 2^64, as the counter of dropped frames does.
abbrev Balanced : BoundedAudioQueue → ℕ → ℕ → BoundedAudioQueue → Type 0
Balanced q given gone q' =
    (q'.channels ≡ q.channels)
    × ((q.dropped_frames + frames_of q.channels q.blocks + given) % 2 ^ 64
        ≡ (gone + q'.dropped_frames + frames_of q.channels q'.blocks) % 2 ^ 64)

store-Balanced :
    (q : BoundedAudioQueue) (samples : List ℕ) (timestamp_ns : ℕ)
    → IsValid q
    → length samples ≤ q.maximum_samples
    → Balanced q (length samples / q.channels) 0 (store q samples timestamp_ns)
store-Balanced q samples timestamp_ns v h =
    let m = room_for-MadeRoom q samples v h in
    let more =
      frames_of-append q.channels (room_for q samples).blocks (block samples timestamp_ns) in
    (refl, omega (arith, m.counted, more))

drop_incoming-Balanced :
    (q : BoundedAudioQueue) (frames : ℕ) → Balanced q frames 0 (drop_incoming q frames)
drop_incoming-Balanced q frames = (refl, omega arith)

enter-Balanced :
    (q : BoundedAudioQueue) (busy closed : Bool) (samples : List ℕ) (timestamp_ns : ℕ)
    → IsValid q
    → length samples ≤ q.maximum_samples
    → Balanced q (length samples / q.channels) 0 (enter q busy closed samples timestamp_ns).1
enter-Balanced q true closed samples t v h = drop_incoming-Balanced q _
enter-Balanced q false true samples t v h = drop_incoming-Balanced q _
enter-Balanced q false false samples t v h = store-Balanced q samples t v h

-- The frames that a call of `try_push` takes on: all of them, or none where it refuses the block.
abbrev pub frames_given : BoundedAudioQueue → List ℕ → ℕ
frames_given q samples = if length samples % q.channels == 0 then length samples / q.channels else 0

try_push-Balanced :
    (q : BoundedAudioQueue) (busy : Bool) (samples : List ℕ) (timestamp_ns : ℕ)
    → IsValid q
    → Balanced q (frames_given q samples) 0 (try_push q busy samples timestamp_ns).1
unfolding try_push
try_push-Balanced q busy samples timestamp_ns v =
    elim (Bool-cases (length samples % q.channels == 0)) [
      | inr odd ↦ rw odd (refl, omega arith)
      | inl even ↦ rw even (elim (Bool-cases (length samples / q.channels == 0)) [
        | inl none_given ↦
            let zero_given = (==_iff (length samples / q.channels) 0).0 none_given in
            rw none_given (refl, omega (arith, zero_given))
        | inr given ↦ rw given (elim (Bool-cases (ltb q.maximum_samples (length samples))) [
          | inl large ↦ rw large (drop_incoming-Balanced q _)
          | inr fits ↦
              rw fits (enter-Balanced q busy q.closed samples timestamp_ns v (ground arith))
        ])
      ])
    ]

-- The frames that a call takes on, and those that leave with it: a block that is popped, and the
-- dropped frames that are reported.
abbrev pub given : BoundedAudioQueue → Call → ℕ
given q (push busy samples timestamp_ns) = frames_given q samples
given q c = 0

abbrev pub popped : ℕ → List QueuedAudioBlock → ℕ
popped channels [] = 0
popped channels (b ∷ rest) = length b.samples / channels

abbrev pub gone : BoundedAudioQueue → Call → ℕ
gone q pop = popped q.channels q.blocks
gone q take_dropped = q.dropped_frames
gone q c = 0

abbrev pub given_each : BoundedAudioQueue → List Call → ℕ
given_each q [] = 0
given_each q (c ∷ rest) = given q c + given_each (call q c) rest

abbrev pub gone_each : BoundedAudioQueue → List Call → ℕ
gone_each q [] = 0
gone_each q (c ∷ rest) = gone q c + gone_each (call q c) rest

pop-Balanced :
    (q : BoundedAudioQueue) (bs : List QueuedAudioBlock)
    → q.blocks ≡ bs
    → Balanced q 0 (popped q.channels bs) (pop_block q bs).1
pop-Balanced q [] e = (refl, omega arith)
pop-Balanced q (b ∷ rest) e = (refl, omega (arith, ap (frames_of q.channels) e))

recycle-Balanced : (q : BoundedAudioQueue) (busy : Bool) → Balanced q 0 0 (recycle_buffer q busy)
recycle-Balanced q true = (refl, omega arith)
recycle-Balanced q false = elim (Bool-cases (ltb q.recycled 32)) [
  | inl e ↦ rw e (refl, omega arith)
  | inr e ↦ rw e (refl, omega arith)
]

call-Balanced :
    (q : BoundedAudioQueue) (c : Call) → IsValid q → Balanced q (given q c) (gone q c) (call q c)
call-Balanced q (push busy samples timestamp_ns) v = try_push-Balanced q busy samples timestamp_ns v
call-Balanced q (recycle busy) v = recycle-Balanced q busy
call-Balanced q pop v = pop-Balanced q q.blocks refl
call-Balanced q shut v = (refl, omega arith)
call-Balanced q take_dropped v = (refl, omega arith)

call_each-Balanced :
    (q : BoundedAudioQueue) (cs : List Call)
    → IsValid q
    → Balanced q (given_each q cs) (gone_each q cs) (call_each q cs)
call_each-Balanced q [] v = (refl, omega arith)
call_each-Balanced q (c ∷ rest) v =
    let (same, now) = call-Balanced q c v in
    let (same', later) = call_each-Balanced (call q c) rest (call-IsValid q c v) in
    let later' = rw same at later in (same' ∙ same, omega (arith, now, later'))

-- No frame is lost without being counted: after any calls on a queue that `new` returned, the
-- frames given in frame-aligned blocks are those of the blocks popped, those reported as dropped,
-- those counted as dropped since, and those still queued, up to multiples of 2^64.
pub reachable_accounts :
    (channels maximum_frames : ℕ) (q : BoundedAudioQueue) (calls : List Call)
    → new_queue channels maximum_frames ≡ ok q
    → let q' = call_each q calls in
      given_each q calls % 2 ^ 64
      ≡ (gone_each q calls + q'.dropped_frames + frames_of channels q'.blocks) % 2 ^ 64
reachable_accounts channels maximum_frames q calls made =
    let (same, no_blocks, no_drops) = new_queue_empty channels maximum_frames q made in
    let (_, balanced) =
      call_each-Balanced q calls (new_queue-IsValid channels maximum_frames q made) in
    let none_queued = ap (frames_of q.channels) no_blocks in
    let queued = ap (λ n. frames_of n (call_each q calls).blocks) same in
    omega (arith, balanced, none_queued, queued)
