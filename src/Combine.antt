-- ===== src/Combine.antt =====
-- crates/audio-core/src/combine.rs: the publisher that combines the first channel of several devices
-- into one stream. The devices are arguments of its setup, and what their callbacks capture are
-- calls between the rounds of its loop; what it sends is a value. The signal meter is left out.
pub mod Slots
pub mod Interleaving
pub mod Sending
pub mod Rounds
pub mod Packets
pub mod Ready
pub mod Captures
pub mod Runs
mod Tests
use open_audio.Common.{
  ℕ, zero, suc, ◌+◌, ◌-◌, ◌*◌, ◌/◌, ◌%◌, ◌^◌, ◌≡◌, min, max, Bool, true, false, not, ltb, leb, ◌==◌,
  if◌then◌else◌,
}
use open_audio.Common.{
  Option, none, some, List, [], ◌∷◌, ◌++◌, map, length, take, drop, get_or, wrapping_add,
  checked_mul,
}
use open_audio.Common.Outcome.{Result, ok, err, ◌>>=◌, ◌>>◌, refuse_if, ok_or}
use open_audio.Protocol.{
  Error, PacketHeader, max_float32_frames_per_packet, sample_format_float32, sample_rate_to_code,
}
use open_audio.Protocol.Encode.{audio_packet, f32_bytes}
use open_audio.AudioQueue.{
  QueuedAudioBlock, BoundedAudioQueue, QueueError, new_queue, try_push_owned, try_pop,
  take_dropped_frames,
}
use open_audio.Crypto.{Aead, CryptoError, encrypt_audio_packet}
use open_audio.Discovery.{Address, SubscriberRegistry, active_subscribers}

-- MAX_FRAMES_PER_PACKET
abbrev pub max_combined_frames : ℕ
max_combined_frames = 58

-- What a source turns out to be: left out, or a device with its input channels and sample rate.
pub data Source : Type 0 where
  left_out : Source
  device : ℕ → ℕ → Source

-- The samples written to a recording stand for its writer.
pub record OpenedChannel : Type 0 where
  pub buffer : BoundedAudioQueue
  pub pending : List ℕ
  pub sample_rate : ℕ
  pub recorded : Option (List ℕ)

pub data ChannelSlot : Type 0 where
  active : OpenedChannel → ChannelSlot
  skipped : ChannelSlot

-- Of the errors of the setup, those that a device's library brings are left out. A channel is named
-- by its index.
pub data CombineError : Type 0 where
  no_sources too_many_sources no_frames capture_overflow no_device : CombineError
  no_input_channels : ℕ → CombineError
  queue_refused : QueueError → CombineError
  rates_differ : ℕ → ℕ → CombineError
  unknown_rate : ℕ → CombineError

abbrev pub queue_or_error :
    Result QueueError BoundedAudioQueue → Result CombineError BoundedAudioQueue
queue_or_error (ok queue) = ok queue
queue_or_error (err e) = err (queue_refused e)

-- The queue between a device and the loop: of 100 ms.
abbrev pub capture_queue : ℕ → Result CombineError BoundedAudioQueue
capture_queue sample_rate = do
  product ← ok_or (checked_mul sample_rate 100) capture_overflow
  queue_or_error (new_queue 1 (max (product / 1_000) 1))

abbrev pub new_recording : Bool → Option (List ℕ)
new_recording record_each_channel = if record_each_channel then some [] else none

abbrev pub open_source : Bool → ℕ → Source → Result CombineError ChannelSlot
open_source record_each_channel index left_out = ok skipped
open_source record_each_channel index (device input_channels sample_rate) = do
  refuse_if (input_channels == 0) (no_input_channels index)
  buffer ← capture_queue sample_rate
  ok (
      active (record {
        buffer = buffer;
        pending = [];
        sample_rate = sample_rate;
        recorded = new_recording record_each_channel;
      }))

abbrev pub open_sources : Bool → ℕ → List Source → Result CombineError (List ChannelSlot)
open_sources record_each_channel index [] = ok []
open_sources record_each_channel index (source ∷ rest) = do
  slot ← open_source record_each_channel index source
  slots ← open_sources record_each_channel (index + 1) rest
  ok (slot ∷ slots)

-- The rate of the first active slot.
abbrev pub first_rate : List ChannelSlot → Option ℕ
first_rate [] = none
first_rate (active channel ∷ slots) = some channel.sample_rate
first_rate (skipped ∷ slots) = first_rate slots

abbrev pub check_rates : ℕ → List ChannelSlot → Result CombineError (Unit {0})
check_rates sample_rate [] = ok tt
check_rates sample_rate (skipped ∷ slots) = check_rates sample_rate slots
check_rates sample_rate (active channel ∷ slots) = do
  refuse_if (not (channel.sample_rate == sample_rate))
      (rates_differ channel.sample_rate sample_rate)
  check_rates sample_rate slots

-- What the loop keeps, and the values that the setup fixed.
pub record Combiner : Type 0 where
  pub stream_id : ℕ
  pub channel_count : ℕ
  pub max_frames_per_packet : ℕ
  pub sample_rate_code : ℕ
  pub slots : List ChannelSlot
  pub sequence : ℕ
  pub last_drop_report : ℕ
  pub registry : SubscriberRegistry

abbrev pub at_most_combined : Result Error ℕ → Result CombineError ℕ
at_most_combined (ok frames) = ok (min frames max_combined_frames)
at_most_combined (err e) = err no_frames

abbrev pub frames_limit : ℕ → Result CombineError ℕ
frames_limit channel_count = at_most_combined (max_float32_frames_per_packet channel_count)

unfoldable pub set_up :
    ℕ → Bool → List Source → SubscriberRegistry → ℕ → Result CombineError Combiner
set_up stream_id record_each_channel sources registry now = do
  let channel_count = length sources
  refuse_if (channel_count == 0) no_sources
  refuse_if (ltb 255 channel_count) too_many_sources
  max_frames ← frames_limit channel_count
  slots ← open_sources record_each_channel 0 sources
  sample_rate ← ok_or (first_rate slots) no_device
  check_rates sample_rate slots
  refuse_if (sample_rate_to_code sample_rate == 0) (unknown_rate sample_rate)
  ok (record {
    stream_id = stream_id;
    channel_count = channel_count;
    max_frames_per_packet = max_frames;
    sample_rate_code = sample_rate_to_code sample_rate;
    slots = slots;
    sequence = 0;
    last_drop_report = now;
    registry = registry;
  })

-- `capture_first_channel`: the first sample of each frame of an interleaved block, from the frame
-- with this index on.
abbrev pub mono_from : List ℕ → ℕ → ℕ → ℕ → List ℕ
mono_from samples input_channels frame zero = []
mono_from samples input_channels frame (suc n) =
    get_or samples (frame * input_channels) 0 ∷ mono_from samples input_channels (frame + 1) n

unfoldable pub capture_first_channel : List ℕ → ℕ → BoundedAudioQueue → Bool → ℕ → BoundedAudioQueue
capture_first_channel samples input_channels buffer busy timestamp_ns =
    let frame_count = length samples / input_channels in
    let (accepted, after) =
      try_push_owned buffer busy (mono_from samples input_channels 0 frame_count) timestamp_ns in
    if input_channels == 0 then buffer else if frame_count == 0 then buffer else after

abbrev pub write_recording : List ℕ → Option (List ℕ) → Option (List ℕ)
write_recording samples none = none
write_recording samples (some written) = some (written ++ samples)

-- `while let Some(block) = channel.buffer.try_pop()`, on more fuel than the buffer has blocks.
abbrev pub take_block : OpenedChannel → QueuedAudioBlock → BoundedAudioQueue → OpenedChannel
take_block channel block buffer = record channel {
  buffer = buffer;
  pending = channel.pending ++ block.samples;
  recorded = write_recording block.samples channel.recorded;
}

abbrev pub pop_blocks : ℕ → OpenedChannel → OpenedChannel
pop_blocks zero channel = channel
pop_blocks (suc fuel) channel =
    let (popped, buffer) = try_pop channel.buffer in
    elim popped [
      | none ↦ record channel { buffer = buffer }
      | some block ↦ pop_blocks fuel (take_block channel block buffer)
    ]

abbrev pub drain_slot : ChannelSlot → ChannelSlot
drain_slot skipped = skipped
drain_slot (active channel) = active (pop_blocks (length channel.buffer.blocks + 1) channel)

-- The report resets the counters of dropped frames.
abbrev pub report_slot : ChannelSlot → ChannelSlot
report_slot skipped = skipped
report_slot (active channel) =
    active (record channel { buffer = (take_dropped_frames channel.buffer).1 })

abbrev pub report_drops : ℕ → ℕ → List ChannelSlot → List ChannelSlot
report_drops now last slots =
    let reported = map report_slot slots in
    if leb 1_000_000_000 (now - last) then reported else slots

-- The shortest `pending` of the active slots.
abbrev pub shortest : ℕ → Option ℕ → Option ℕ
shortest n none = some n
shortest n (some m) = some (min n m)

abbrev pub pending_frames : List ChannelSlot → Option ℕ
pending_frames [] = none
pending_frames (skipped ∷ slots) = pending_frames slots
pending_frames (active channel ∷ slots) = shortest (length channel.pending) (pending_frames slots)

abbrev pub unwrap_or_zero : Option ℕ → ℕ
unwrap_or_zero none = 0
unwrap_or_zero (some n) = n

abbrev pub available_frames : List ChannelSlot → ℕ
available_frames slots = unwrap_or_zero (pending_frames slots)

-- `vec![0.0f32; frames]`
abbrev pub silence : ℕ → List ℕ
silence zero = []
silence (suc n) = 0 ∷ silence n

-- The samples of a slot for a packet, and the slot without them.
abbrev pub slot_samples : ℕ → ChannelSlot → List ℕ
slot_samples frames skipped = silence frames
slot_samples frames (active channel) = take frames channel.pending

abbrev pub slot_after : ℕ → ChannelSlot → ChannelSlot
slot_after frames skipped = skipped
slot_after frames (active channel) =
    active (record channel { pending = drop frames channel.pending })

-- The samples of one frame, and of `n` frames from one on; every channel has all the frames.
abbrev pub frame_samples : List (List ℕ) → ℕ → List ℕ
frame_samples [] frame = []
frame_samples (samples ∷ channels) frame = get_or samples frame 0 ∷ frame_samples channels frame

abbrev pub interleave_from : List (List ℕ) → ℕ → ℕ → List ℕ
interleave_from channels frame zero = []
interleave_from channels frame (suc n) =
    frame_samples channels frame ++ interleave_from channels (frame + 1) n

abbrev pub interleave : List (List ℕ) → ℕ → List ℕ
interleave channels frames = interleave_from channels 0 frames

-- `frames_to_send as u16` and `channel_count as u8`.
unfoldable pub combined_packet : Combiner → ℕ → ℕ → List ℕ → List ℕ
combined_packet c timestamp_ns frames interleaved =
    audio_packet
      (record {
        sub_stream_index = 0;
        stream_id = c.stream_id;
        sequence_number = c.sequence;
        presentation_timestamp_ns = timestamp_ns;
      })
      (c.channel_count % 256) sample_format_float32 c.sample_rate_code (frames % 2 ^ 16)
      (f32_bytes interleaved)

-- Nothing where the cipher fails.
abbrev pub encrypted_to_send : Result CryptoError (List ℕ) → Option (List ℕ)
encrypted_to_send (ok encrypted) = some encrypted
encrypted_to_send (err e) = none

abbrev pub packet_to_send : Option Aead → List ℕ → Option (List ℕ)
packet_to_send none packet = some packet
packet_to_send (some cipher) packet = encrypted_to_send (encrypt_audio_packet cipher packet)

abbrev pub send_all : List Address → Option (List ℕ) → List (Address × List ℕ)
send_all destinations none = []
send_all [] (some packet) = []
send_all (d ∷ destinations) (some packet) = (d, packet) ∷ send_all destinations (some packet)

-- With the subscribers of the stream, if it has any.
abbrev pub publish :
    Option Aead
    → Combiner
    → ℕ
    → ℕ
    → List ℕ
    → Option (List Address)
    → List (Address × List ℕ) × Combiner
publish cipher c timestamp_ns frames interleaved none = ([], c)
publish cipher c timestamp_ns frames interleaved (some []) = ([], c)
publish cipher c timestamp_ns frames interleaved (some (d ∷ destinations)) = (
  send_all (d ∷ destinations)
      (packet_to_send cipher (combined_packet c timestamp_ns frames interleaved)),
  record c { sequence = wrapping_add c.sequence 1 },
)

abbrev pub after_drain : ℕ → Combiner → Combiner
after_drain now c =
    let drained = map drain_slot c.slots in
    record c {
      slots = report_drops now c.last_drop_report drained;
      last_drop_report =
          if leb 1_000_000_000 (now - c.last_drop_report) then now else c.last_drop_report;
    }

abbrev pub take_frames : ℕ → Combiner → Combiner
take_frames frames c = record c { slots = map (slot_after frames) c.slots }

-- The rest of a round, with the frames that are there.
abbrev pub send_frames : Option Aead → Combiner → ℕ → ℕ → ℕ → List (Address × List ℕ) × Combiner
send_frames cipher c now timestamp_ns available =
    let frames = min available c.max_frames_per_packet in
    let (destinations, registry) = active_subscribers c.registry now c.stream_id in
    let interleaved = interleave (map (slot_samples frames) c.slots) frames in
    publish cipher (take_frames frames (record c { registry = registry })) timestamp_ns frames
      interleaved destinations

-- One round of the loop: what is sent to whom, and what is kept.
unfoldable pub round : Option Aead → Combiner → ℕ → ℕ → List (Address × List ℕ) × Combiner
round cipher c now timestamp_ns =
    let drained = after_drain now c in
    let available = available_frames drained.slots in
    let sent = send_frames cipher drained now timestamp_ns available in
    if available == 0 then ([], drained) else sent
