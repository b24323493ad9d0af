-- ===== src/AudioQueue/Tests.antt =====
-- crates/audio-core/src/util.rs: a queue of two channels and two frames.
use open_audio.Common.{ℕ, ◌+◌, ◌-◌, ◌*◌, ◌%◌, ◌^◌, ◌<◌, ◌≤◌, ◌≡◌, ◌⊎◌, refl, arith, true, false}
use open_audio.Common.{some, none, List, [], ◌∷◌, ◌++◌, length, drop}
use open_audio.Common.Outcome.{ok, err}
use open_audio.AudioQueue.{
  QueuedAudioBlock, BoundedAudioQueue, new_queue, try_push, make_room, trim_interleaved_queue,
  no_capacity,
}
use open_audio.AudioQueue.Eviction.{total, DropsOldest, frames_of}
use open_audio.AudioQueue.Runs.{
  IsValid, Call, push, recycle, pop, shut, take_dropped, call_each, reachable-IsValid,
}
use open_audio.AudioQueue.Accounts.{try_push_stores, given_each, gone_each, reachable_accounts}
use open_audio.AudioQueue.Trim.{trim_interleaved_queue_keeps}

abbrev empty_queue : BoundedAudioQueue
empty_queue = record {
  channels = 2;
  maximum_samples = 4;
  blocks = [];
  recycled = 16;
  buffered_samples = 0;
  closed = false;
  dropped_frames = 0;
}

empty_queue_made : new_queue 2 2 ≡ ok empty_queue
unfolding new_queue
empty_queue_made = refl

no_queue : new_queue 0 2 ≡ err no_capacity
unfolding new_queue
no_queue = refl

abbrev first : QueuedAudioBlock
first = record { samples = 1 ∷ 2 ∷ []; presentation_timestamp_ns = 5 }

abbrev second : QueuedAudioBlock
second = record { samples = 3 ∷ 4 ∷ []; presentation_timestamp_ns = 6 }

abbrev full_queue : BoundedAudioQueue
full_queue = record empty_queue { blocks = first ∷ second ∷ []; buffered_samples = 4 }

full_queue-IsValid : IsValid full_queue
full_queue-IsValid = record { exact = refl; within = omega arith; recycled_few = omega arith }

-- The third block takes the place of the first.
full_queue_drops :
    (try_push full_queue false (7 ∷ 8 ∷ []) 9).1.blocks
    ≡ second ∷ record { samples = 7 ∷ 8 ∷ []; presentation_timestamp_ns = 9 } ∷ []
unfolding try_push make_room
full_queue_drops = refl

try_push_stores_example :
    (k : ℕ) × (kept : List QueuedAudioBlock) × DropsOldest 4 2 (first ∷ second ∷ []) kept k
    × (total kept + 2 ≤ 4)
    × ((try_push full_queue false (7 ∷ 8 ∷ []) 9).0 ≡ ok true)
    × ((try_push full_queue false (7 ∷ 8 ∷ []) 9).1.blocks
        ≡ kept ++ record { samples = 7 ∷ 8 ∷ []; presentation_timestamp_ns = 9 } ∷ [])
try_push_stores_example =
    try_push_stores full_queue (7 ∷ 8 ∷ []) 9 full_queue-IsValid refl refl (omega arith)
      (omega arith)

abbrev calls : List Call
calls =
    push false (1 ∷ 2 ∷ []) 5
    ∷ push false (3 ∷ 4 ∷ []) 6
    ∷ push true (5 ∷ 6 ∷ []) 7
    ∷ push false (7 ∷ 8 ∷ []) 9
    ∷ take_dropped
    ∷ pop
    ∷ recycle false
    ∷ shut
    ∷ push false (9 ∷ 10 ∷ []) 11
    ∷ []

reachable-IsValid_example : IsValid (call_each empty_queue calls)
reachable-IsValid_example = reachable-IsValid 2 2 empty_queue calls empty_queue_made

reachable_accounts_example :
    let q' = call_each empty_queue calls in
    given_each empty_queue calls % 2 ^ 64
    ≡ (gone_each empty_queue calls + q'.dropped_frames + frames_of 2 q'.blocks) % 2 ^ 64
reachable_accounts_example = reachable_accounts 2 2 empty_queue calls empty_queue_made

abbrev five : List ℕ
five = 1 ∷ 2 ∷ 3 ∷ 4 ∷ 5 ∷ []

-- Five samples of two channels, where two frames are allowed: one frame goes.
trim_interleaved_queue_keeps_example :
    (k : ℕ) × (trim_interleaved_queue five 2 2 ≡ some (drop (k * 2) five))
    × (length (drop (k * 2) five) ≤ 4)
    × ((k ≡ 0) ⊎ (4 < 5 - (k - 1) * 2))
trim_interleaved_queue_keeps_example =
    trim_interleaved_queue_keeps five 2 2 (omega arith) (omega arith) (omega arith)

-- A queue that is not aligned and no frame allowed: the range to drop ends past the queue.
trim_panics : trim_interleaved_queue (1 ∷ []) 0 2 ≡ none
unfolding trim_interleaved_queue
trim_panics = refl
