-- ===== src/Split/Tests.antt =====
-- Two channels that were combined, taken apart.
use open_audio.Common.{
  ℕ, ◌<◌, ◌≡◌, refl, arith, false, none, some, List, [], ◌∷◌, ◌++◌, Option, drop, get_or, min,
  length, ◌+◌, ◌*◌, ◌/◌, ◌≤◌,
}
use open_audio.Common.Outcome.{ok}
use open_audio.Protocol.{sample_rate_to_code}
use open_audio.AudioQueue.{BoundedAudioQueue}
use open_audio.Combine.{ChannelSlot, active, skipped, Combiner}
use open_audio.Combine.Rounds.{IsReady, held_by, frames_in, packet_in}
use open_audio.Split.{SplitChannel, demux_into_buffers, render_split_channel}
use open_audio.Split.Rendering.{render_split_channel_lem}
use open_audio.Split.Combined.{buffers, split_combined}

abbrev queue : BoundedAudioQueue
queue = record {
  channels = 1;
  maximum_samples = 4_800;
  blocks = record { samples = 0x3F80_0000 ∷ 0 ∷ []; presentation_timestamp_ns = 0 } ∷ [];
  recycled = 15;
  buffered_samples = 2;
  closed = false;
  dropped_frames = 0;
}

abbrev left : ChannelSlot
left = active (record { buffer = queue; pending = []; sample_rate = 48000; recorded = none })

abbrev combiner : Combiner
combiner = record {
  stream_id = 3;
  channel_count = 2;
  max_frames_per_packet = 58;
  sample_rate_code = sample_rate_to_code 48000;
  slots = left ∷ skipped ∷ [];
  sequence = 7;
  last_drop_report = 0;
  registry = [];
}

ready : IsReady 48000 combiner
unfolding sample_rate_to_code
ready = record {
  counted = refl;
  some_channels = omega arith;
  few_channels = omega arith;
  some_frames = omega arith;
  few_frames = omega arith;
  coded = refl;
  known = λ e. absurd (omega arith);
  stream = omega arith;
  numbered = omega arith;
}

-- A resampler between equal rates.
abbrev pass_on : ℕ → List ℕ → Option (List ℕ × ℕ)
pass_on r samples = some (samples, r)

abbrev split_channels : List (SplitChannel ℕ)
split_channels =
    record { buffer = 5 ∷ []; resampler = 0; recorded = none }
    ∷ record { buffer = []; resampler = 1; recorded = some [] }
    ∷ []

split_combined_example :
    let (result, after) =
      demux_into_buffers pass_on split_channels (drop 32 (packet_in 5 6 combiner)) 2 in
    (result ≡ ok tt)
    × ((ch : ℕ)
        → ch < 2
        → (samples : List ℕ) × (length samples ≡ frames_in 5 combiner)
          × (get_or (buffers after) ch [] ≡ get_or (buffers split_channels) ch [] ++ samples)
          × ((frame : ℕ)
              → frame < frames_in 5 combiner
              → get_or samples frame 0 ≡ get_or (get_or (held_by combiner) ch []) frame 0))
split_combined_example =
    split_combined pass_on 48000 combiner 5 6 split_channels (λ r xs. refl) ready
      (((omega arith, refl), ((omega arith, refl), tt)), (tt, tt)) refl (omega arith)

-- A frame on two outputs, one of silence, and the sample that no frame fills.
rendered : render_split_channel (λ x. x) 5 2 (7 ∷ []) ≡ (7 ∷ 7 ∷ 0 ∷ 0 ∷ 0 ∷ [], [])
unfolding render_split_channel
rendered = refl

render_split_channel_lem_example :
    let (rendered, after) = render_split_channel (λ x. min x 5) 5 2 (7 ∷ 4 ∷ 3 ∷ []) in
    (length rendered ≡ 5)
    × (after ≡ drop (5 / 2) (7 ∷ 4 ∷ 3 ∷ []))
    × ((k i : ℕ)
        → k < 5 / 2
        → i < 2
        → get_or rendered (k * 2 + i) 0 ≡ min (get_or (7 ∷ 4 ∷ 3 ∷ []) k 0) 5)
    × ((i : ℕ) → 5 / 2 * 2 ≤ i → get_or rendered i 0 ≡ 0)
render_split_channel_lem_example =
    render_split_channel_lem (λ x. min x 5) 5 2 (7 ∷ 4 ∷ 3 ∷ []) (omega arith)
