-- ===== src/Asio.antt =====
-- crates/audio-core/src/asio_subscribe.rs: a stream played through the outputs of an ASIO driver,
-- from the datagrams over the buffer to the blocks that the driver asks for. Floats are bit patterns
-- and their operations are parameters, as are the resampler, the jitter controller and the clock
-- synchronizer of stream_control.rs, which compute with them.
pub mod Routing
pub mod Rendering
pub mod Alignment
pub mod Received
mod Tests
use open_audio.Common.{
  ℕ, zero, suc, ◌+◌, ◌-◌, ◌*◌, ◌/◌, ◌%◌, min, max, Bool, true, false, not, ◌&&◌, ◌||◌, ltb, leb,
  ◌==◌, if◌then◌else◌,
}
use open_audio.Common.{
  Option, none, some, List, [], ◌∷◌, ◌++◌, map, length, take, drop, get_or, wrapping_add,
  wrapping_sub, saturating_add, checked_mul, checked_add,
}
use open_audio.Common.Bytes.{f32_from_le_bytes}
use open_audio.Common.Index.{flatten}
use open_audio.Common.Outcome.{Result, ok, err, ◌>>=◌, ◌>>◌, refuse_if, ok_or}
use open_audio.AudioQueue.{saturating_mul}
use open_audio.Protocol.{sample_format_float32}
use open_audio.Protocol.Parse.{ParsedPacket, parse_packet, get_range, float32_payload}

-- `+=`, `*`, `1.0 / count as f32` and `clamp(-1.0, 1.0)`.
pub record Mixer : Type 0 where
  pub add : ℕ → ℕ → ℕ
  pub multiply : ℕ → ℕ → ℕ
  pub reciprocal : ℕ → ℕ
  pub clamp : ℕ → ℕ

-- 1.0
abbrev pub float_one : ℕ
float_one = 0x3F80_0000

pub data AsioError : Type 0 where
  route_count no_outputs all_disabled : AsioError
  invalid_route : ℕ → ℕ → AsioError
  not_float32 count_overflow size_overflow length_overflow : AsioError
  truncated : ℕ → AsioError
  invalid_payload resampler_failed : AsioError

-- For each incoming channel the output that it goes to, if any.
abbrev pub Routes : Type 0
Routes = List (Option ℕ)

abbrev pub check_routes : Routes → ℕ → ℕ → Result AsioError (Unit {0})
check_routes [] incoming_index output_channels = ok tt
check_routes (none ∷ routes) incoming_index output_channels =
    check_routes routes (incoming_index + 1) output_channels
check_routes (some output ∷ routes) incoming_index output_channels = do
  refuse_if (leb output_channels output) (invalid_route (incoming_index + 1) (output + 1))
  check_routes routes (incoming_index + 1) output_channels

abbrev pub all_none : Routes → Bool
all_none [] = true
all_none (none ∷ routes) = all_none routes
all_none (some output ∷ routes) = false

unfoldable pub validate_routes : Routes → ℕ → ℕ → Result AsioError (Unit {0})
validate_routes routes incoming_channels output_channels = do
  refuse_if (not (length routes == incoming_channels)) route_count
  refuse_if (output_channels == 0) no_outputs
  check_routes routes 0 output_channels
  refuse_if (all_none routes) all_disabled
  ok tt

-- `route_counts`, and the value of `map` for each output.
abbrev pub bump : ℕ → List ℕ → List ℕ
bump i [] = []
bump zero (n ∷ ns) = (n + 1) ∷ ns
bump (suc i) (n ∷ ns) = n ∷ bump i ns

abbrev pub zeros : ℕ → List ℕ
zeros zero = []
zeros (suc n) = 0 ∷ zeros n

abbrev pub count_routes : Routes → List ℕ → List ℕ
count_routes [] counts = counts
count_routes (none ∷ routes) counts = count_routes routes counts
count_routes (some output ∷ routes) counts =
    count_routes routes (if ltb output (length counts) then bump output counts else counts)

abbrev pub divisor : Mixer → ℕ → ℕ
divisor mixer count = if ltb 1 count then mixer.reciprocal count else float_one

unfoldable pub build_route_divisors : Mixer → Routes → ℕ → List ℕ
build_route_divisors mixer routes output_channels =
    map (divisor mixer) (count_routes routes (zeros output_channels))

-- `output[offset + output_index] += sample`, on the outputs of one frame.
abbrev pub add_at : Mixer → ℕ → ℕ → List ℕ → List ℕ
add_at mixer i sample [] = []
add_at mixer zero sample (x ∷ xs) = mixer.add x sample ∷ xs
add_at mixer (suc i) sample (x ∷ xs) = x ∷ add_at mixer i sample xs

-- `pop_front`, and the rest of the buffer.
abbrev pub front : List ℕ → ℕ
front [] = 0
front (x ∷ xs) = x

abbrev pub behind : List ℕ → List ℕ
behind [] = []
behind (x ∷ xs) = xs

-- Whether a sample of an incoming channel is added to an output.
abbrev pub add_routed : Mixer → ℕ → ℕ → ℕ → Option ℕ → ℕ → List ℕ → List ℕ
add_routed mixer incoming_channels output_channels incoming_index none sample frame = frame
add_routed mixer incoming_channels output_channels incoming_index (some output) sample frame =
    if leb incoming_channels incoming_index
    then frame
    else if leb output_channels output
    then frame
    else add_at mixer output sample frame

-- The loop over the routes, on the outputs of one frame.
abbrev pub route_samples : Mixer → ℕ → ℕ → ℕ → Routes → List ℕ → List ℕ → List ℕ × List ℕ
route_samples mixer incoming_channels output_channels incoming_index [] buffer frame =
    (frame, buffer)
route_samples mixer incoming_channels output_channels incoming_index (route ∷ routes) buffer frame =
    route_samples mixer incoming_channels output_channels (incoming_index + 1) routes
      (behind buffer)
      (add_routed mixer incoming_channels output_channels incoming_index route (front buffer) frame)

-- The second loop of a frame.
abbrev pub scale_frame : Mixer → List ℕ → List ℕ → List ℕ
scale_frame mixer [] divisors = []
scale_frame mixer (x ∷ xs) divisors =
    mixer.clamp (mixer.multiply x (front divisors)) ∷ scale_frame mixer xs (behind divisors)

-- One frame after another; a frame that the buffer does not have stays silent.
abbrev pub render_frames : Mixer → ℕ → ℕ → Routes → List ℕ → ℕ → List ℕ → List (List ℕ) × List ℕ
render_frames mixer incoming_channels output_channels routes divisors zero buffer = ([], buffer)
render_frames mixer incoming_channels output_channels routes divisors (suc n) buffer =
    let (mixed, behind_frame) =
      route_samples mixer incoming_channels output_channels 0 routes buffer
        (zeros output_channels) in
    let short = ltb (length buffer) incoming_channels in
    let frame = if short then zeros output_channels else scale_frame mixer mixed divisors in
    let (frames, rest) =
      render_frames mixer incoming_channels output_channels routes divisors n
        (if short then buffer else behind_frame) in
    (frame ∷ frames, rest)

-- The block of `samples` outputs that the driver gets, and the buffer after it.
unfoldable pub render_routed_audio : Mixer → List ℕ → ℕ → ℕ → ℕ → Routes → List ℕ → List ℕ × List ℕ
render_routed_audio mixer buffer samples incoming_channels output_channels routes divisors =
    let output_frames = samples / output_channels in
    let (frames, rest) =
      render_frames mixer incoming_channels output_channels routes divisors output_frames buffer in
    if incoming_channels == 0 || output_channels == 0
    then (zeros samples, buffer)
    else (flatten frames ++ zeros (samples - output_frames * output_channels), rest)

abbrev pub sample_count_of : ParsedPacket → Result AsioError ℕ
sample_count_of parsed =
    ok_or (checked_mul parsed.samples_per_channel parsed.channel_count) count_overflow

abbrev pub is_missing : Option (List ℕ) → Bool
is_missing none = true
is_missing (some payload) = false

pub validate_packet_payload : List ℕ → ParsedPacket → Result AsioError (Unit {0})
validate_packet_payload packet parsed = do
  refuse_if (not (parsed.sample_format == sample_format_float32)) not_float32
  sample_count ← sample_count_of parsed
  payload_bytes ← ok_or (checked_mul sample_count 4) size_overflow
  required_length ← ok_or (checked_add parsed.payload_offset payload_bytes) length_overflow
  refuse_if (ltb (length packet) required_length) (truncated required_length)
  refuse_if (is_missing (float32_payload packet parsed)) invalid_payload
  ok tt

-- `chunks_exact(4)` with `f32::from_le_bytes`.
abbrev pub f32_samples : List ℕ → List ℕ
f32_samples (a ∷ b ∷ c ∷ d ∷ rest) = f32_from_le_bytes a b c d ∷ f32_samples rest
f32_samples _ = []

pub packet_samples : List ℕ → ParsedPacket → Result AsioError (List ℕ)
packet_samples packet parsed = do
  validate_packet_payload packet parsed
  sample_count ← sample_count_of parsed
  payload_length ← ok_or (checked_mul sample_count 4) size_overflow
  payload_end ← ok_or (checked_add parsed.payload_offset payload_length) length_overflow
  payload ← ok_or (get_range packet parsed.payload_offset payload_end) (truncated payload_end)
  ok (f32_samples payload)

-- The last sequence number, and the packets that are taken for lost.
abbrev pub lost_before : ℕ → Option ℕ → ℕ
lost_before sequence_number none = 0
lost_before sequence_number (some previous) =
    let gap = wrapping_sub sequence_number (wrapping_add previous 1) in
    if ltb gap 1_000_000 then gap else 0

pub update_sequence_statistics : ℕ → Option ℕ → ℕ → Option ℕ × ℕ
update_sequence_statistics sequence_number last_sequence packets_dropped = (
  some sequence_number,
  saturating_add packets_dropped (lost_before sequence_number last_sequence),
)

-- What the clock synchronizer asks for: a correction below the threshold is `keep`.
pub data Correction : Type 0 where
  keep skip_frame repeat_frame : Correction

-- `process` gives none on an error.
pub record Timing (R J K : Type 0) : Type 0 where
  pub process : R → List ℕ → Option (List ℕ × R)
  pub target_frames : J → ℕ
  pub observe_buffer : J → ℕ → ℕ → Bool → Bool → J
  pub observe_clock : K → ℕ → ℕ → K
  pub correction : K → Correction

pub record Playback (R J K : Type 0) : Type 0 where
  pub stream_id : ℕ
  pub incoming_channels : ℕ
  pub sample_rate : ℕ
  pub max_buffered_frames : ℕ
  pub buffer : List ℕ
  pub resampler : R
  pub controller : J
  pub synchronizer : K
  pub last_adjustment : ℕ
  pub last_sequence : Option ℕ
  pub packets_received : ℕ
  pub packets_dropped : ℕ

abbrev pub correct_buffer : Correction → ℕ → List ℕ → List ℕ
correct_buffer keep channels buffer = buffer
correct_buffer skip_frame channels buffer = drop channels buffer
correct_buffer repeat_frame channels buffer =
    if leb channels (length buffer) then buffer ++ take channels buffer else buffer

abbrev pub is_keep : Correction → Bool
is_keep keep = true
is_keep _ = false

-- 250 ms between two corrections. The buffer, and the time of the last correction.
pub apply_clock_correction : List ℕ → ℕ → Correction → ℕ → ℕ → List ℕ × ℕ
apply_clock_correction buffer channels correction now last_adjustment =
    if channels == 0 || is_keep correction || ltb (now - last_adjustment) 250_000_000
    then (buffer, last_adjustment)
    else (correct_buffer correction channels buffer, now)

-- `while guard.len() > max_buffered_samples`, on as much fuel as the buffer has samples.
pub trim_frames : ℕ → ℕ → ℕ → List ℕ → List ℕ
trim_frames zero limit channels buffer = buffer
trim_frames (suc fuel) limit channels buffer =
    let trimmed = trim_frames fuel limit channels (drop channels buffer) in
    if ltb limit (length buffer) then trimmed else buffer

module _ {R J K : Type 0} (timing : Timing R J K) where
  -- After the samples were appended: the clock, the controller and the limit of the buffer.
  abbrev pub settle : Playback R J K → ℕ → List ℕ → R → ParsedPacket → Playback R J K
  settle p now buffer resampler parsed =
      let synchronizer = timing.observe_clock p.synchronizer parsed.presentation_timestamp_ns now in
      let (last_sequence, packets_dropped) =
        update_sequence_statistics parsed.sequence_number p.last_sequence p.packets_dropped in
      let (corrected, adjusted) =
        apply_clock_correction buffer p.incoming_channels (timing.correction synchronizer) now
          p.last_adjustment in
      let frames = length corrected / max p.incoming_channels 1 in
      let target = timing.target_frames p.controller in
      let controller =
        timing.observe_buffer p.controller now frames (ltb frames (target / 2))
          (ltb (saturating_mul target 2) frames) in
      let limit =
        saturating_mul
          (min p.max_buffered_frames (saturating_mul (timing.target_frames controller) 4))
          p.incoming_channels in
      record p {
        buffer = trim_frames (length corrected) limit p.incoming_channels corrected;
        resampler = resampler;
        controller = controller;
        synchronizer = synchronizer;
        last_adjustment = adjusted;
        last_sequence = last_sequence;
        packets_received = saturating_add p.packets_received 1;
        packets_dropped = packets_dropped;
      }

  abbrev pub played :
      Playback R J K → ℕ → ParsedPacket → Option (List ℕ × R) → Result AsioError (Playback R J K)
  played p now parsed none = err resampler_failed
  played p now parsed (some (samples, resampler)) =
      ok (settle p now (p.buffer ++ samples) resampler parsed)

  abbrev pub is_for : Playback R J K → ParsedPacket → Bool
  is_for p parsed =
      parsed.stream_id == p.stream_id
      && parsed.channel_count == p.incoming_channels
      && parsed.sample_rate == p.sample_rate

  abbrev pub accepted_packet :
      Playback R J K → ℕ → List ℕ → ParsedPacket → Result AsioError (Playback R J K)
  accepted_packet p now packet parsed = do
    samples ← packet_samples packet parsed
    played p now parsed (timing.process p.resampler samples)

  abbrev pub parsed_packet :
      Playback R J K → ℕ → List ℕ → Option ParsedPacket → Result AsioError (Playback R J K)
  parsed_packet p now packet none = ok p
  parsed_packet p now packet (some parsed) =
      if is_for p parsed then accepted_packet p now packet parsed else ok p

  -- A datagram of `run_receive_loop`, at a time since the start.
  pub receive_packet : Playback R J K → ℕ → List ℕ → Result AsioError (Playback R J K)
  receive_packet p now packet = parsed_packet p now packet (parse_packet packet)
