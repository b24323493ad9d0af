-- ===== src/Combine/Tests.antt =====
-- A combined publisher of a device and a silent channel.
use open_audio.Common.{ℕ, ◌^◌, ◌<◌, ◌≡◌, refl, arith}
use open_audio.Common.{true, false, none, some, List, [], ◌∷◌}
use open_audio.Common.Outcome.{ok}
use open_audio.Protocol.{sample_rate_to_code, max_float32_frames_per_packet}
use open_audio.Protocol.AudioRoundTrip.{ReadsBack}
use open_audio.AudioQueue.{new_queue, BoundedAudioQueue}
use open_audio.Discovery.{Address, SubscriberRegistry, active_subscribers}
use open_audio.Combine.{
  Source, left_out, device, ChannelSlot, active, skipped, Combiner, set_up, round,
}
use open_audio.Crypto.{Aead}
use open_audio.Crypto.Envelope.{IsAead}
use open_audio.Common.{◌++◌, drop}
use open_audio.Combine.Sending.{Sends}
use open_audio.Combine.Rounds.{
  IsReady, Takes, AreFirst, header_in, frames_in, samples_in, packet_in,
}
use open_audio.Combine.Packets.{round_publishes}
use open_audio.Combine.Captures.{Event, captures, rounds, run}
use open_audio.Combine.Runs.{IsRunning, set_up-IsRunning}

abbrev here : Address
here = record { ip = 9; port = 5000 }

-- Stream 3 has a subscriber, seen at time 0.
abbrev registry : SubscriberRegistry
registry = (3, record { address = here; last_seen = 0 } ∷ []) ∷ []

abbrev queue : BoundedAudioQueue
queue = record {
  channels = 1;
  maximum_samples = 4_800;
  blocks = record { samples = 0x3F80_0000 ∷ 0 ∷ []; presentation_timestamp_ns = 0 } ∷ [];
  recycled = 15;
  buffered_samples = 2;
  closed = false;
  dropped_frames = 0;
}

abbrev left : ChannelSlot
left = active (record { buffer = queue; pending = []; sample_rate = 48000; recorded = none })

abbrev combiner : ℕ → Combiner
combiner stream_id = record {
  stream_id = stream_id;
  channel_count = 2;
  max_frames_per_packet = 58;
  sample_rate_code = sample_rate_to_code 48000;
  slots = left ∷ skipped ∷ [];
  sequence = 7;
  last_drop_report = 0;
  registry = registry;
}

ready : (stream_id : ℕ) → stream_id < 2 ^ 32 → IsReady 48000 (combiner stream_id)
unfolding sample_rate_to_code
ready stream_id h = record {
  counted = refl;
  some_channels = omega arith;
  few_channels = omega arith;
  some_frames = omega arith;
  few_frames = omega arith;
  coded = refl;
  known = λ e. absurd (omega arith);
  stream = h;
  numbered = omega arith;
}

heard : (active_subscribers registry 5 3).0 ≡ some (here ∷ [])
unfolding active_subscribers
heard = refl

abbrev tag : List ℕ
tag = 1 ∷ 2 ∷ 3 ∷ 4 ∷ 5 ∷ 6 ∷ 7 ∷ 8 ∷ 9 ∷ 10 ∷ 11 ∷ 12 ∷ 13 ∷ 14 ∷ 15 ∷ 16 ∷ []

-- A cipher that only puts a tag in front.
abbrev tagging : Aead
tagging = record {
  encrypt = λ nonce message aad. some (tag ++ message);
  decrypt = λ nonce ciphertext aad. some (drop 16 ciphertext);
}

some_inj : (xs ys : List ℕ) → some xs ≡ some ys → xs ≡ ys
some_inj xs ys e = cc

tagging-IsAead : IsAead tagging
tagging-IsAead = record {
  takes_back = λ nonce message aad c e. rw (some_inj c (tag ++ message) (cc)) refl;
  adds_tag = λ nonce message aad c e. rw (some_inj c (tag ++ message) (cc)) (omega arith);
}

round_publishes_example :
    let c = combiner 3 in
    let (sent, after) = round (some tagging) c 5 6 in
    (Sends (some tagging) (header_in c 6) (packet_in 5 6 c) (here ∷ []) sent × (after.sequence ≡ 8))
    × Takes 5 c after
    × ReadsBack (header_in c 6) 2 48000 (samples_in 5 c) (frames_in 5 c) (packet_in 5 6 c)
    × AreFirst 5 c
round_publishes_example =
    round_publishes (some tagging) 48000 (combiner 3) 5 6 here [] tagging-IsAead
      (ready 3 (omega arith)) (((omega arith, refl), ((omega arith, refl), tt)), (tt, tt))
      (omega arith) refl heard

-- Two frames of two channels: the second channel is silent.
samples_sent : samples_in 5 (combiner 3) ≡ 0x3F80_0000 ∷ 0 ∷ 0 ∷ 0 ∷ []
samples_sent = refl

abbrev sources : List Source
sources = device 2 48000 ∷ left_out ∷ []

abbrev started : Combiner
started = record {
  stream_id = 3;
  channel_count = 2;
  max_frames_per_packet = 58;
  sample_rate_code = 1;
  slots =
      active (record {
        buffer = record queue { blocks = []; recycled = 16; buffered_samples = 0 };
        pending = [];
        sample_rate = 48000;
        recorded = some [];
      })
      ∷ skipped
      ∷ [];
  sequence = 0;
  last_drop_report = 0;
  registry = registry;
}

started-set_up : set_up 3 true sources registry 0 ≡ ok started
unfolding set_up new_queue sample_rate_to_code max_float32_frames_per_packet
started-set_up = refl

abbrev events : List Event
events = captures 0 (0x3F80_0000 ∷ 0 ∷ []) 2 false 1 ∷ rounds 2 3 ∷ []

set_up-IsRunning_example : (rate : ℕ) × IsRunning rate (run none started events)
set_up-IsRunning_example =
    set_up-IsRunning none 3 true sources registry 0 started events (omega arith) started-set_up
      (((omega arith, refl), ((omega arith, refl), tt)), tt)
