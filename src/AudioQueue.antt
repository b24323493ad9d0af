-- ===== src/AudioQueue.antt =====
-- crates/audio-core/src/util.rs: `trim_interleaved_queue` and `BoundedAudioQueue`. Whether another
-- thread holds the lock is an argument of the calls that only try it.
pub mod Eviction
pub mod Runs
pub mod Accounts
pub mod Trim
mod Tests
use open_audio.Common.{
  ℕ, ◌+◌, ◌-◌, ◌*◌, ◌/◌, ◌%◌, ◌^◌, Bool, true, false, not, ◌||◌, ◌&&◌, ltb, leb, ◌==◌,
}
use open_audio.Common.{if◌then◌else◌, min, Option, none, some, List, [], ◌∷◌, ◌++◌, length, drop}
use open_audio.Common.{checked_mul, wrapping_add}
use open_audio.Common.Outcome.{Result, ok, err, ◌>>=◌, ◌>>◌, refuse_if, ok_or}

-- `usize::saturating_mul` and `usize::div_ceil`.
abbrev pub saturating_mul : ℕ → ℕ → ℕ
saturating_mul a b = min (a * b) (2 ^ 64 - 1)

abbrev pub div_ceil : ℕ → ℕ → ℕ
div_ceil a b = if a % b == 0 then a / b else a / b + 1

-- `none` stands for a panic: without a channel, or where the range to drop ends past the queue.
pub trim_interleaved_queue : List ℕ → ℕ → ℕ → Option (List ℕ)
trim_interleaved_queue queue maximum_frames channels =
    let maximum_samples = saturating_mul maximum_frames channels in
    let excess_samples = length queue - maximum_samples in
    let samples_to_drop = saturating_mul (div_ceil excess_samples channels) channels in
    if channels == 0
    then none
    else if ltb maximum_samples (length queue)
    then if leb samples_to_drop (length queue) then some (drop samples_to_drop queue) else none
    else some queue

pub record QueuedAudioBlock : Type 0 where
  pub samples : List ℕ
  pub presentation_timestamp_ns : ℕ

-- The recycled buffers are all empty, so that their number stands for them.
pub record BoundedAudioQueue : Type 0 where
  pub channels : ℕ
  pub maximum_samples : ℕ
  pub blocks : List QueuedAudioBlock
  pub recycled : ℕ
  pub buffered_samples : ℕ
  pub closed : Bool
  pub dropped_frames : ℕ

pub data QueueError : Type 0 where
  no_capacity capacity_overflow not_aligned : QueueError

unfoldable pub new_queue : ℕ → ℕ → Result QueueError BoundedAudioQueue
new_queue channels maximum_frames = do
  refuse_if (channels == 0 || maximum_frames == 0) no_capacity
  maximum_samples ← ok_or (checked_mul channels maximum_frames) capacity_overflow
  ok (record {
    channels = channels;
    maximum_samples = maximum_samples;
    blocks = [];
    recycled = 16;
    buffered_samples = 0;
    closed = false;
    dropped_frames = 0;
  })

-- `AtomicU64::fetch_add`, which wraps around.
abbrev pub count_dropped : ℕ → ℕ → ℕ
count_dropped dropped frames = (dropped + frames) % 2 ^ 64

-- What the loop of `try_push` changes.
pub record Room : Type 0 where
  pub blocks : List QueuedAudioBlock
  pub recycled : ℕ
  pub buffered_samples : ℕ
  pub dropped_frames : ℕ

-- `while state.buffered_samples + samples.len() > self.maximum_samples`: the oldest blocks go until
-- `incoming` samples fit. Lengths of vectors in memory have no sum of 2^64.
unfoldable pub make_room : ℕ → ℕ → ℕ → List QueuedAudioBlock → ℕ → ℕ → ℕ → Room
make_room channels maximum incoming [] recycled buffered dropped = record {
  blocks = [];
  recycled = recycled;
  buffered_samples = buffered;
  dropped_frames = dropped;
}
make_room channels maximum incoming (stale ∷ rest) recycled buffered dropped =
    let n = length stale.samples in
    let after =
      make_room channels maximum incoming rest (if ltb recycled 32 then recycled + 1 else recycled)
        (buffered - n) (count_dropped dropped (n / channels)) in
    if ltb maximum (buffered + incoming) then after else record {
      blocks = stale ∷ rest;
      recycled = recycled;
      buffered_samples = buffered;
      dropped_frames = dropped;
    }

-- What follows the tests of `try_push`; `recycled - 1` is the `pop`, which may find nothing.
abbrev pub store : BoundedAudioQueue → List ℕ → ℕ → BoundedAudioQueue
store q samples timestamp_ns =
    let room =
      make_room q.channels q.maximum_samples (length samples) q.blocks q.recycled q.buffered_samples
        q.dropped_frames in
    record q {
      blocks =
          room.blocks
          ++ record { samples = samples; presentation_timestamp_ns = timestamp_ns } ∷ [];
      recycled = room.recycled - 1;
      buffered_samples = room.buffered_samples + length samples;
      dropped_frames = room.dropped_frames;
    }

abbrev pub drop_incoming : BoundedAudioQueue → ℕ → BoundedAudioQueue
drop_incoming q frames = record q { dropped_frames = count_dropped q.dropped_frames frames }

-- With the lock, where it is free, and with the flag that is read under it.
abbrev pub enter :
    BoundedAudioQueue → Bool → Bool → List ℕ → ℕ → Result QueueError Bool × BoundedAudioQueue
enter q true closed samples timestamp_ns = (ok false, drop_incoming q (length samples / q.channels))
enter q false true samples timestamp_ns = (ok false, drop_incoming q (length samples / q.channels))
enter q false false samples timestamp_ns = (ok true, store q samples timestamp_ns)

unfoldable pub try_push :
    BoundedAudioQueue → Bool → List ℕ → ℕ → Result QueueError Bool × BoundedAudioQueue
try_push q busy samples timestamp_ns =
    let frames = length samples / q.channels in
    if not (length samples % q.channels == 0)
    then (err not_aligned, q)
    else if frames == 0
    then (ok true, q)
    else if ltb q.maximum_samples (length samples)
    then (ok false, drop_incoming q frames)
    else enter q busy q.closed samples timestamp_ns

abbrev pub try_push_owned :
    BoundedAudioQueue → Bool → List ℕ → ℕ → Result QueueError Bool × BoundedAudioQueue
try_push_owned q busy samples timestamp_ns = try_push q busy samples timestamp_ns

abbrev pub pop_block :
    BoundedAudioQueue → List QueuedAudioBlock → Option QueuedAudioBlock × BoundedAudioQueue
pop_block q [] = (none, q)
pop_block q (block ∷ rest) = (
  some block,
  record q { blocks = rest; buffered_samples = q.buffered_samples - length block.samples },
)

abbrev pub try_pop : BoundedAudioQueue → Option QueuedAudioBlock × BoundedAudioQueue
try_pop q = pop_block q q.blocks

abbrev pub recycle_buffer : BoundedAudioQueue → Bool → BoundedAudioQueue
recycle_buffer q busy =
    if busy then q else if ltb q.recycled 32 then record q { recycled = q.recycled + 1 } else q

abbrev pub close : BoundedAudioQueue → BoundedAudioQueue
close q = record q { closed = true }

abbrev pub has_none : List QueuedAudioBlock → Bool
has_none [] = true
has_none (b ∷ rest) = false

abbrev pub is_closed_and_empty : BoundedAudioQueue → Bool
is_closed_and_empty q = q.closed && has_none q.blocks

abbrev pub take_dropped_frames : BoundedAudioQueue → ℕ × BoundedAudioQueue
take_dropped_frames q = (q.dropped_frames, record q { dropped_frames = 0 })
