-- ===== src/Asio/Tests.antt =====
-- Two channels on one output, and a datagram of one frame.
use open_audio.Common.{ℕ, ◌+◌, ◌*◌, ◌≡◌, refl, ap, arith, Option, none, some}
use open_audio.Common.{List, [], ◌∷◌, get_or}
use open_audio.Common.Outcome.{ok}
use mathlib.Core.Path.{subst}
use open_audio.Protocol.{PacketHeader}
use open_audio.Protocol.Encode.{audio_packet}
use open_audio.Asio.{
  Mixer, Routes, validate_routes, build_route_divisors, render_routed_audio, Timing, Playback, keep,
  receive_packet,
}
use open_audio.Asio.Rendering.{render_routed_audio_lem}
use open_audio.Asio.Alignment.{IsWhole}
use open_audio.Asio.Received.{KeepsFrames, Kept, receive_packet-Kept}

-- Numbers in place of floats.
abbrev mixer : Mixer
mixer = record { add = ◌+◌; multiply = ◌*◌; reciprocal = λ n. 1; clamp = λ x. x }

abbrev routes : Routes
routes = some 0 ∷ some 0 ∷ []

routes_valid : validate_routes routes 2 1 ≡ ok tt
unfolding validate_routes
routes_valid = refl

abbrev samples : List ℕ
samples = 1 ∷ 2 ∷ 3 ∷ 4 ∷ 5 ∷ []

render_routed_audio_lem_example :
    get_or
      (render_routed_audio mixer samples 3 2 1 routes (build_route_divisors mixer routes 1)).0
      (1 * 1 + 0)
      0
    ≡ 7
render_routed_audio_lem_example =
    render_routed_audio_lem mixer routes 2 1 3 samples routes_valid (omega arith) 1 0 (omega arith)
      (omega arith)

-- The third frame is not there.
rendered :
    render_routed_audio mixer samples 3 2 1 routes (build_route_divisors mixer routes 1)
    ≡ (3 ∷ 7 ∷ 0 ∷ [], 5 ∷ [])
unfolding render_routed_audio build_route_divisors
rendered = refl

abbrev timing : Timing ℕ ℕ ℕ
timing = record {
  process = λ r xs. some (xs, r);
  target_frames = λ target. target;
  observe_buffer = λ target now frames under over. target;
  observe_clock = λ offset sent received. offset;
  correction = λ offset. keep;
}

abbrev playback : Playback ℕ ℕ ℕ
playback = record {
  stream_id = 7;
  incoming_channels = 1;
  sample_rate = 48000;
  max_buffered_frames = 9_600;
  buffer = 1 ∷ [];
  resampler = 0;
  controller = 960;
  synchronizer = 0;
  last_adjustment = 0;
  last_sequence = some 4;
  packets_received = 1;
  packets_dropped = 0;
}

abbrev header : PacketHeader
header = record {
  sub_stream_index = 0;
  stream_id = 7;
  sequence_number = 6;
  presentation_timestamp_ns = 5;
}

abbrev datagram : List ℕ
datagram = audio_packet header 1 3 1 1 (0 ∷ 0 ∷ 128 ∷ 63 ∷ [])

samples_of : Option (List ℕ × ℕ) → List ℕ
samples_of none = []
samples_of (some (xs, r)) = xs

timing-KeepsFrames : KeepsFrames timing 1
unfolding samples_of
timing-KeepsFrames r after xs out e h = subst (IsWhole 1) (ap samples_of e) h

receive_packet-Kept_example : Kept timing playback (receive_packet timing playback 9 datagram)
receive_packet-Kept_example =
    receive_packet-Kept timing playback 9 datagram timing-KeepsFrames (omega arith) (1, refl)
