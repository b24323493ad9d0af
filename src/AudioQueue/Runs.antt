-- ===== src/AudioQueue/Runs.antt =====
-- Calls of `BoundedAudioQueue` in any order: the limits that they keep, and what becomes of each
-- frame.
use open_audio.Common.{ℕ, ◌+◌, ◌/◌, ◌%◌, ◌≤◌, ◌≡◌, refl, ap, ◌∙◌, arith}
use open_audio.Common.{Bool, true, false, Bool-cases, inl, inr, ltb, ◌==◌}
use open_audio.Common.{List, [], ◌∷◌, ◌++◌, length}
use open_audio.Common.Outcome.{ok}
use open_audio.AudioQueue.{
  QueuedAudioBlock, BoundedAudioQueue, Room, make_room, store, drop_incoming, enter, new_queue,
  try_push, try_pop, pop_block, recycle_buffer, close, take_dropped_frames,
}
use open_audio.AudioQueue.Eviction.{total, frames_of, MadeRoom, make_room-MadeRoom}

total-append :
    (bs : List QueuedAudioBlock) (b : QueuedAudioBlock)
    → total (bs ++ b ∷ []) ≡ total bs + length b.samples
total-append [] b = omega arith
total-append (a ∷ bs) b = omega (arith, total-append bs b)

pub frames_of-append :
    (channels : ℕ) (bs : List QueuedAudioBlock) (b : QueuedAudioBlock)
    → frames_of channels (bs ++ b ∷ []) ≡ frames_of channels bs + length b.samples / channels
frames_of-append channels [] b = omega arith
frames_of-append channels (a ∷ bs) b = omega (arith, frames_of-append channels bs b)

-- The counter of buffered samples is exact and within the capacity, and at most 32 buffers wait to
-- be used again.
pub record IsValid (q : BoundedAudioQueue) : Type 0 where
  pub exact : q.buffered_samples ≡ total q.blocks
  pub within : q.buffered_samples ≤ q.maximum_samples
  pub recycled_few : q.recycled ≤ 32

abbrev pub room_for : BoundedAudioQueue → List ℕ → Room
room_for q samples =
    make_room q.channels q.maximum_samples (length samples) q.blocks q.recycled q.buffered_samples
      q.dropped_frames

pub room_for-MadeRoom :
    (q : BoundedAudioQueue) (samples : List ℕ)
    → IsValid q
    → length samples ≤ q.maximum_samples
    → MadeRoom q.channels q.maximum_samples
        (length samples)
        q.blocks
        q.dropped_frames
        (room_for q samples)
room_for-MadeRoom q samples v h =
    make_room-MadeRoom q.channels q.maximum_samples (length samples) q.blocks q.recycled
      q.buffered_samples q.dropped_frames v.exact h v.recycled_few

store-IsValid :
    (q : BoundedAudioQueue) (samples : List ℕ) (timestamp_ns : ℕ)
    → IsValid q
    → length samples ≤ q.maximum_samples
    → IsValid (store q samples timestamp_ns)
store-IsValid q samples timestamp_ns v h =
    let m = room_for-MadeRoom q samples v h in
    let b : QueuedAudioBlock = record {
      samples = samples;
      presentation_timestamp_ns = timestamp_ns;
    } in
    record {
      exact = omega (arith, m.exact, total-append (room_for q samples).blocks b);
      within = m.fits;
      recycled_few = omega (arith, m.recycled_few);
    }

drop_incoming-IsValid :
    (q : BoundedAudioQueue) (frames : ℕ) → IsValid q → IsValid (drop_incoming q frames)
drop_incoming-IsValid q frames v = record {
  exact = v.exact;
  within = v.within;
  recycled_few = v.recycled_few;
}

enter-IsValid :
    (q : BoundedAudioQueue) (busy closed : Bool) (samples : List ℕ) (timestamp_ns : ℕ)
    → IsValid q
    → length samples ≤ q.maximum_samples
    → IsValid (enter q busy closed samples timestamp_ns).1
enter-IsValid q true closed samples t v h = drop_incoming-IsValid q _ v
enter-IsValid q false true samples t v h = drop_incoming-IsValid q _ v
enter-IsValid q false false samples t v h = store-IsValid q samples t v h

-- Whatever a call of `try_push` returns, the queue keeps its limits.
try_push-IsValid :
    (q : BoundedAudioQueue) (busy : Bool) (samples : List ℕ) (timestamp_ns : ℕ)
    → IsValid q
    → IsValid (try_push q busy samples timestamp_ns).1
unfolding try_push
try_push-IsValid q busy samples timestamp_ns v =
    elim (Bool-cases (length samples % q.channels == 0)) [
      | inr odd ↦ rw odd v
      | inl even ↦ rw even (elim (Bool-cases (length samples / q.channels == 0)) [
        | inl none_given ↦ rw none_given v
        | inr given ↦ rw given (elim (Bool-cases (ltb q.maximum_samples (length samples))) [
          | inl large ↦ rw large (drop_incoming-IsValid q _ v)
          | inr fits ↦ rw fits (enter-IsValid q busy q.closed samples timestamp_ns v (ground arith))
        ])
      ])
    ]

pop_block-IsValid :
    (q : BoundedAudioQueue) (bs : List QueuedAudioBlock)
    → q.blocks ≡ bs
    → IsValid q
    → IsValid (pop_block q bs).1
pop_block-IsValid q [] e v = v
pop_block-IsValid q (b ∷ rest) e v =
    let t : q.buffered_samples ≡ total (b ∷ rest) = v.exact ∙ ap total e in
    record {
      exact = omega (arith, t);
      within = omega (arith, v.within);
      recycled_few = v.recycled_few;
    }

pub data Call : Type 0 where
  push : Bool → List ℕ → ℕ → Call
  recycle : Bool → Call
  pop shut take_dropped : Call

-- The queue after a call.
abbrev pub call : BoundedAudioQueue → Call → BoundedAudioQueue
call q (push busy samples timestamp_ns) = (try_push q busy samples timestamp_ns).1
call q (recycle busy) = recycle_buffer q busy
call q pop = (try_pop q).1
call q shut = close q
call q take_dropped = (take_dropped_frames q).1

abbrev pub call_each : BoundedAudioQueue → List Call → BoundedAudioQueue
call_each q [] = q
call_each q (c ∷ rest) = call_each (call q c) rest

recycle-IsValid :
    (q : BoundedAudioQueue) (busy : Bool) → IsValid q → IsValid (recycle_buffer q busy)
recycle-IsValid q true v = v
recycle-IsValid q false v = elim (Bool-cases (ltb q.recycled 32)) [
  | inl e ↦ rw e (record { exact = v.exact; within = v.within; recycled_few = ground arith })
  | inr e ↦ rw e v
]

pub call-IsValid : (q : BoundedAudioQueue) (c : Call) → IsValid q → IsValid (call q c)
call-IsValid q (push busy samples timestamp_ns) v = try_push-IsValid q busy samples timestamp_ns v
call-IsValid q (recycle busy) v = recycle-IsValid q busy v
call-IsValid q pop v = pop_block-IsValid q q.blocks refl v
call-IsValid q shut v = record { exact = v.exact; within = v.within; recycled_few = v.recycled_few }
call-IsValid q take_dropped v = record {
  exact = v.exact;
  within = v.within;
  recycled_few = v.recycled_few;
}

call_each-IsValid : (q : BoundedAudioQueue) (cs : List Call) → IsValid q → IsValid (call_each q cs)
call_each-IsValid q [] v = v
call_each-IsValid q (c ∷ rest) v = call_each-IsValid (call q c) rest (call-IsValid q c v)

pub new_queue-IsValid :
    (channels maximum_frames : ℕ) (q : BoundedAudioQueue)
    → new_queue channels maximum_frames ≡ ok q
    → IsValid q
unfolding new_queue
new_queue-IsValid channels maximum_frames q made = record {
  exact = ground arith;
  within = ground arith;
  recycled_few = ground arith;
}

pub new_queue_empty :
    (channels maximum_frames : ℕ) (q : BoundedAudioQueue)
    → new_queue channels maximum_frames ≡ ok q
    → (q.channels ≡ channels) × (q.blocks ≡ []) × (q.dropped_frames ≡ 0)
unfolding new_queue
new_queue_empty channels maximum_frames q made = (ground arith, ground arith, ground arith)

-- After any calls on a queue that `new` returned, the counter of buffered samples is the sum of the
-- lengths of the blocks and at most the capacity, and at most 32 buffers wait to be used again.
pub reachable-IsValid :
    (channels maximum_frames : ℕ) (q : BoundedAudioQueue) (calls : List Call)
    → new_queue channels maximum_frames ≡ ok q
    → IsValid (call_each q calls)
reachable-IsValid channels maximum_frames q calls made =
    call_each-IsValid q calls (new_queue-IsValid channels maximum_frames q made)
