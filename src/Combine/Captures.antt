-- ===== src/Combine/Captures.antt =====
-- Captures of the devices into the queues of the combined publisher.
use open_audio.Common.{
  ℕ, zero, suc, ◌+◌, ◌-◌, ◌*◌, ◌/◌, ◌%◌, ◌≡◌, refl, ap, Bool, true, false, ltb, ◌==◌, if◌then◌else◌,
}
use open_audio.Common.{
  Option, List, [], ◌∷◌, ◌++◌, map, length, All, All-append, Bool-cases, inl, inr,
}
use open_audio.Protocol.AudioRoundTrip.{IsSample}
use open_audio.AudioQueue.{
  QueuedAudioBlock, BoundedAudioQueue, make_room, enter, try_push, count_dropped,
}
use open_audio.Crypto.{Aead}
use open_audio.Combine.{
  ChannelSlot, active, skipped, Combiner, mono_from, capture_first_channel, round,
}
use open_audio.Combine.Slots.{samples_of, slot_held}
use open_audio.Combine.Interleaving.{get_or-IsSample}

-- A block of samples from the device of a slot, with its channels, whether the loop holds the
-- queue's lock, and the time; or a round of the loop at two times.
pub data Event : Type 0 where
  captures : ℕ → List ℕ → ℕ → Bool → ℕ → Event
  rounds : ℕ → ℕ → Event

abbrev pub capture_slot : List ℕ → ℕ → Bool → ℕ → ChannelSlot → ChannelSlot
capture_slot samples input_channels busy timestamp_ns skipped = skipped
capture_slot samples input_channels busy timestamp_ns (active channel) = active (record channel {
  buffer = capture_first_channel samples input_channels channel.buffer busy timestamp_ns;
})

abbrev pub at_slot : (ChannelSlot → ChannelSlot) → ℕ → List ChannelSlot → List ChannelSlot
at_slot change i [] = []
at_slot change zero (slot ∷ slots) = change slot ∷ slots
at_slot change (suc i) (slot ∷ slots) = slot ∷ at_slot change i slots

abbrev pub step : Option Aead → Combiner → Event → Combiner
step cipher c (captures i samples input_channels busy timestamp_ns) = record c {
  slots = at_slot (capture_slot samples input_channels busy timestamp_ns) i c.slots;
}
step cipher c (rounds now timestamp_ns) = (round cipher c now timestamp_ns).1

abbrev pub run : Option Aead → Combiner → List Event → Combiner
run cipher c [] = c
run cipher c (event ∷ events) = run cipher (step cipher c event) events

-- What the devices give is finite.
abbrev pub AreFinite : List Event → Type 0
AreFinite [] = Unit {0}
AreFinite (captures i samples input_channels busy timestamp_ns ∷ events) =
    All IsSample samples × AreFinite events
AreFinite (rounds now timestamp_ns ∷ events) = AreFinite events

All-append_left : (xs ys : List ℕ) → All IsSample (xs ++ ys) → All IsSample xs
All-append_left [] ys h = tt
All-append_left (x ∷ xs) ys (s, h) = (s, All-append_left xs ys h)

All-append_right : (xs ys : List ℕ) → All IsSample (xs ++ ys) → All IsSample ys
All-append_right [] ys h = h
All-append_right (x ∷ xs) ys (s, h) = All-append_right xs ys h

mono_from-IsSample :
    (samples : List ℕ) (input_channels frame n : ℕ)
    → All IsSample samples
    → All IsSample (mono_from samples input_channels frame n)
mono_from-IsSample samples input_channels frame zero h = tt
mono_from-IsSample samples input_channels frame (suc n) h = (
  get_or-IsSample samples (frame * input_channels) h,
  mono_from-IsSample samples input_channels (frame + 1) n h,
)

-- Making room keeps a suffix of the blocks.
make_room-samples :
    (channels maximum incoming : ℕ) (blocks : List QueuedAudioBlock) (recycled buffered dropped : ℕ)
    → All IsSample (samples_of blocks)
    → All IsSample
        (samples_of (make_room channels maximum incoming blocks recycled buffered dropped).blocks)
unfolding make_room
make_room-samples channels maximum incoming [] recycled buffered dropped h = tt
make_room-samples channels maximum incoming (stale ∷ rest) recycled buffered dropped h =
    let later =
      make_room-samples channels maximum incoming rest
        (if ltb recycled 32 then recycled + 1 else recycled) (buffered - length stale.samples)
        (count_dropped dropped (length stale.samples / channels))
        (All-append_right stale.samples (samples_of rest) h) in
    elim (Bool-cases (ltb maximum (buffered + incoming))) [ inl e ↦ rw e later | inr e ↦ rw e h ]

samples_of-append :
    (blocks : List QueuedAudioBlock) (block : QueuedAudioBlock)
    → All IsSample (samples_of blocks)
    → All IsSample block.samples
    → All IsSample (samples_of (blocks ++ block ∷ []))
samples_of-append [] block h k = All-append IsSample block.samples [] k tt
samples_of-append (b ∷ blocks) block h k =
    All-append IsSample b.samples _ (All-append_left b.samples (samples_of blocks) h)
      (samples_of-append blocks block (All-append_right b.samples (samples_of blocks) h) k)

enter-samples :
    (q : BoundedAudioQueue) (busy closed : Bool) (samples : List ℕ) (timestamp_ns : ℕ)
    → All IsSample (samples_of q.blocks)
    → All IsSample samples
    → All IsSample (samples_of (enter q busy closed samples timestamp_ns).1.blocks)
enter-samples q true closed samples timestamp_ns h k = h
enter-samples q false true samples timestamp_ns h k = h
enter-samples q false false samples timestamp_ns h k =
    samples_of-append
      (make_room q.channels q.maximum_samples (length samples) q.blocks q.recycled
        q.buffered_samples q.dropped_frames).blocks
      _
      (make_room-samples q.channels q.maximum_samples (length samples) q.blocks q.recycled
        q.buffered_samples q.dropped_frames h)
      k

try_push-samples :
    (q : BoundedAudioQueue) (busy : Bool) (samples : List ℕ) (timestamp_ns : ℕ)
    → All IsSample (samples_of q.blocks)
    → All IsSample samples
    → All IsSample (samples_of (try_push q busy samples timestamp_ns).1.blocks)
unfolding try_push
try_push-samples q busy samples timestamp_ns h k =
    elim (Bool-cases (length samples % q.channels == 0)) [
      | inr e ↦ rw e h
      | inl e ↦ rw e (elim (Bool-cases (length samples / q.channels == 0)) [
        | inl z ↦ rw z h
        | inr z ↦ rw z (elim (Bool-cases (ltb q.maximum_samples (length samples))) [
          | inl m ↦ rw m h
          | inr m ↦ rw m (enter-samples q busy q.closed samples timestamp_ns h k)
        ])
      ])
    ]

capture_first_channel-samples :
    (samples : List ℕ) (input_channels : ℕ) (q : BoundedAudioQueue) (busy : Bool) (timestamp_ns : ℕ)
    → All IsSample (samples_of q.blocks)
    → All IsSample samples
    → All IsSample
        (samples_of (capture_first_channel samples input_channels q busy timestamp_ns).blocks)
unfolding capture_first_channel
capture_first_channel-samples samples input_channels q busy timestamp_ns h k =
    elim (Bool-cases (input_channels == 0)) [
      | inl e ↦ rw e h
      | inr e ↦ rw e (elim (Bool-cases (length samples / input_channels == 0)) [
        | inl z ↦ rw z h
        | inr z ↦ rw z (
            try_push-samples q busy _ timestamp_ns h
              (mono_from-IsSample samples input_channels 0 (length samples / input_channels) k))
      ])
    ]

pub at_slot-samples :
    (samples : List ℕ) (input_channels : ℕ) (busy : Bool) (timestamp_ns i : ℕ)
    (slots : List ChannelSlot)
    → All IsSample samples
    → All (All IsSample) (map slot_held slots)
    → let after = at_slot (capture_slot samples input_channels busy timestamp_ns) i slots in
      (length after ≡ length slots) × All (All IsSample) (map slot_held after)
at_slot-samples samples input_channels busy timestamp_ns i [] k h = (refl, tt)
at_slot-samples samples input_channels busy timestamp_ns zero (skipped ∷ slots) k (p, h) =
    (refl, (p, h))
at_slot-samples samples input_channels busy timestamp_ns zero (active channel ∷ slots) k (p, h) = (
  refl,
  (
    All-append IsSample channel.pending _
        (All-append_left channel.pending (samples_of channel.buffer.blocks) p)
        (capture_first_channel-samples samples input_channels channel.buffer busy timestamp_ns
          (All-append_right channel.pending (samples_of channel.buffer.blocks) p) k),
    h,
  ),
)
at_slot-samples samples input_channels busy timestamp_ns (suc i) (slot ∷ slots) k (p, h) =
    let (size, later) = at_slot-samples samples input_channels busy timestamp_ns i slots k h in
    (ap suc size, (p, later))
