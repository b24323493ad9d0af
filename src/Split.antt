-- ===== src/Split.antt =====
-- crates/audio-core/src/split.rs: a stream taken apart into one queue for each channel, and each queue
-- rendered to a device of its own. Floats are bit patterns; the resampler and `clamp` are parameters.
pub mod Demux
pub mod Rendering
pub mod Combined
mod Tests
use open_audio.Common.{
  ℕ, zero, suc, ◌+◌, ◌-◌, ◌*◌, ◌/◌, Bool, true, false, ◌||◌, ltb, ◌==◌, if◌then◌else◌, Option, none,
  some, List, [], ◌∷◌, ◌++◌, length, get_or, checked_mul,
}
use open_audio.Common.Bytes.{f32_from_le_bytes}
use open_audio.Common.Outcome.{Result, ok, err}

pub data SplitError : Type 0 where
  inconsistent_routing invalid_channel_count resampler_failed : SplitError

-- The queue, the resampler and the samples of the recording of a channel. The code has them in three
-- vectors, which `spawn` fills together.
pub record SplitChannel (R : Type 0) : Type 0 where
  pub buffer : List ℕ
  pub resampler : R
  pub recorded : Option (List ℕ)

-- `f32::from_le_bytes` of the four bytes from `offset` on.
abbrev pub sample_at : List ℕ → ℕ → ℕ
sample_at payload offset =
    f32_from_le_bytes (get_or payload offset 0) (get_or payload (offset + 1) 0)
      (get_or payload (offset + 2) 0) (get_or payload (offset + 3) 0)

-- The samples of a channel, in `n` frames from one on.
abbrev pub channel_from : List ℕ → ℕ → ℕ → ℕ → ℕ → List ℕ
channel_from payload channel_count channel frame zero = []
channel_from payload channel_count channel frame (suc n) =
    sample_at payload (frame * (channel_count * 4) + channel * 4)
    ∷ channel_from payload channel_count channel (frame + 1) n

-- `channel_samples`: of `n` channels from one on.
abbrev pub channels_from : List ℕ → ℕ → ℕ → ℕ → ℕ → List (List ℕ)
channels_from payload channel_count frame_count channel zero = []
channels_from payload channel_count frame_count channel (suc n) =
    channel_from payload channel_count channel 0 frame_count
    ∷ channels_from payload channel_count frame_count (channel + 1) n

abbrev pub write_recording : List ℕ → Option (List ℕ) → Option (List ℕ)
write_recording samples none = none
write_recording samples (some written) = some (written ++ samples)

module _ {R : Type 0} (process : R → List ℕ → Option (List ℕ × R)) where
  -- A channel with what its resampler made of its samples.
  abbrev pub fed : SplitChannel R → List ℕ → List ℕ × R → SplitChannel R
  fed channel samples (converted, resampler) = record {
    buffer = channel.buffer ++ converted;
    resampler = resampler;
    recorded = write_recording samples channel.recorded;
  }

  abbrev pub fed_or_failed :
      SplitChannel R
      → List (SplitChannel R)
      → Result SplitError (Unit {0}) × List (SplitChannel R)
      → List ℕ
      → Option (List ℕ × R)
      → Result SplitError (Unit {0}) × List (SplitChannel R)
  fed_or_failed channel channels later samples none = (err resampler_failed, channel ∷ channels)
  fed_or_failed channel channels later samples (some converted) =
      (later.0, fed channel samples converted ∷ later.1)

  -- The loop over the channels ends at the first whose resampler fails; the ones before it were fed.
  abbrev pub feed :
      List (SplitChannel R) → List (List ℕ) → Result SplitError (Unit {0}) × List (SplitChannel R)
  feed channels [] = (ok tt, channels)
  feed [] (samples ∷ rest) = (ok tt, [])
  feed (channel ∷ channels) (samples ∷ rest) =
      fed_or_failed channel channels (feed channels rest) samples
        (process channel.resampler samples)

  -- With the size of a frame, if it fits a machine word.
  abbrev pub demux_frames :
      List (SplitChannel R)
      → List ℕ
      → ℕ
      → Option ℕ
      → Result SplitError (Unit {0}) × List (SplitChannel R)
  demux_frames channels payload channel_count none = (err invalid_channel_count, channels)
  demux_frames channels payload channel_count (some bytes_per_frame) =
      let frame_count = length payload / bytes_per_frame in
      let samples = channels_from payload channel_count frame_count 0 channel_count in
      let fed_channels = feed channels samples in
      if frame_count == 0 then (ok tt, channels) else fed_channels

  unfoldable pub demux_into_buffers :
      List (SplitChannel R) → List ℕ → ℕ → Result SplitError (Unit {0}) × List (SplitChannel R)
  demux_into_buffers channels payload channel_count =
      if channel_count == 0 || ltb (length channels) channel_count
      then (err inconsistent_routing, channels)
      else demux_frames channels payload channel_count (checked_mul channel_count 4)

-- One sample on all the outputs of a device.
abbrev pub spread : ℕ → ℕ → List ℕ
spread zero sample = []
spread (suc n) sample = sample ∷ spread n sample

abbrev pub front_or_silence : List ℕ → ℕ
front_or_silence [] = 0
front_or_silence (x ∷ xs) = x

abbrev pub behind_front : List ℕ → List ℕ
behind_front [] = []
behind_front (x ∷ xs) = xs

-- `n` frames, and the queue after them.
abbrev pub split_frames : (ℕ → ℕ) → ℕ → ℕ → List ℕ → List ℕ × List ℕ
split_frames clamp output_channels zero buffer = ([], buffer)
split_frames clamp output_channels (suc n) buffer =
    let (rest, after) = split_frames clamp output_channels n (behind_front buffer) in
    (spread output_channels (clamp (front_or_silence buffer)) ++ rest, after)

-- The block of `samples` outputs, and the queue after it.
unfoldable render_split_channel : (ℕ → ℕ) → ℕ → ℕ → List ℕ → List ℕ × List ℕ
render_split_channel clamp samples output_channels buffer =
    let frame_count = samples / output_channels in
    let (rendered, after) = split_frames clamp output_channels frame_count buffer in
    if output_channels == 0
    then (spread samples 0, buffer)
    else (rendered ++ spread (samples - frame_count * output_channels) 0, after)
