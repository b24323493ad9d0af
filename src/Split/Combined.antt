-- ===== src/Split/Combined.antt =====
-- What crates/audio-core/src/combine.rs sends, taken apart by crates/audio-core/src/split.rs.
use open_audio.Common.{
  ℕ, zero, suc, ◌+◌, ◌*◌, ◌/◌, ◌≤◌, ◌<◌, ◌≡◌, refl, sym, ap, ◌∙◌, arith, false, ltb, ◌==◌, ◌||◌,
  if◌then◌else◌,
}
use native.Mathlib.Nat.{mul-div_cancel}
use open_audio.Common.{
  if_false, Option, some, List, [], ◌∷◌, ◌++◌, length, drop, get_or, All, checked_mul,
}
use mathlib.Core.Path.{subst}
use open_audio.Common.Outcome.{Result, ok}
use open_audio.Common.Bytes.{IsU32}
use open_audio.Protocol.Encode.{f32_bytes, audio_packet}
use open_audio.Protocol.AudioRoundTrip.{IsSample, length-f32_bytes}
use open_audio.Combine.{Combiner, after_drain, available_frames, combined_packet}
use open_audio.Combine.Slots.{report_drops-Drains}
use open_audio.Combine.Interleaving.{interleaved_slots, interleaved-IsSample}
use open_audio.Combine.Rounds.{
  IsReady, held_by, frames_in, samples_in, packet_in, drained-HaveFrames,
}
use open_audio.Split.{
  SplitError, SplitChannel, channels_from, fed, fed_or_failed, feed, demux_frames,
  demux_into_buffers,
}
use open_audio.Split.Demux.{channels_from-f32_bytes, length-taken_channel}

abbrev pub buffers : {R : Type 0} → List (SplitChannel R) → List (List ℕ)
buffers [] = []
buffers (channel ∷ channels) = channel.buffer ∷ buffers channels

-- A resampler between equal rates, which gives back what it gets.
abbrev pub PassesOn : {R : Type 0} → (R → List ℕ → Option (List ℕ × R)) → Type 0
PassesOn {R} process = (r : R) (samples : List ℕ) → process r samples ≡ some (samples, r)

length-channels_from :
    (payload : List ℕ) (count frames from n : ℕ)
    → length (channels_from payload count frames from n) ≡ n
length-channels_from payload count frames from zero = refl
length-channels_from payload count frames from (suc n) =
    ap suc (length-channels_from payload count frames (from + 1) n)

module _ {R : Type 0} (process : R → List ℕ → Option (List ℕ × R)) where
  abbrev Feeds :
      List (SplitChannel R)
      → List (List ℕ)
      → Result SplitError (Unit {0}) × List (SplitChannel R)
      → Type 0
  Feeds channels samples (result, after) =
      (result ≡ ok tt)
      × ((i : ℕ)
          → i < length samples
          → get_or (buffers after) i [] ≡ get_or (buffers channels) i [] ++ get_or samples i [])

  feed-Feeds :
      (channels : List (SplitChannel R)) (samples : List (List ℕ))
      → PassesOn process
      → length samples ≤ length channels
      → Feeds channels samples (feed process channels samples)
  feed-Feeds channels [] passes h = (refl, λ i b. absurd (omega arith))
  feed-Feeds [] (xs ∷ rest) passes h = absurd (omega arith)
  feed-Feeds (channel ∷ channels) (xs ∷ rest) passes h =
      let (fine, later) = feed-Feeds channels rest passes (omega arith) in
      subst
        (λ o.
          Feeds (channel ∷ channels) (xs ∷ rest)
            (fed_or_failed process channel channels (feed process channels rest) xs o))
        (sym (passes channel.resampler xs)) (fine, each later)
    where
      each :
          ((i : ℕ)
            → i < length rest
            → get_or (buffers (feed process channels rest).1) i []
              ≡ get_or (buffers channels) i [] ++ get_or rest i [])
          → (i : ℕ) → i < suc (length rest)
          → get_or
              (buffers
                (fed process channel xs (xs, channel.resampler) ∷ (feed process channels rest).1))
              i
              []
            ≡ get_or (buffers (channel ∷ channels)) i [] ++ get_or (xs ∷ rest) i []
      each later zero b = refl
      each later (suc i) b = later i (omega arith)

  demux_frames-fed :
      (channels : List (SplitChannel R)) (payload : List ℕ) (count frames : ℕ)
      → length payload ≡ frames * (count * 4)
      → 1 ≤ count
      → count ≤ 255
      → 1 ≤ frames
      → count ≤ length channels
      → demux_into_buffers process channels payload count
        ≡ feed process channels (channels_from payload count frames 0 count)
  unfolding demux_into_buffers
  demux_frames-fed channels payload count frames size c1 few f1 enough =
      let running : (count == 0 || ltb (length channels) count) ≡ false = ground arith in
      let fits : checked_mul count 4 ≡ some (count * 4) = ground arith in
      let quotient : length payload / (count * 4) ≡ frames =
        ap (λ n. n / (count * 4)) size ∙ mul-div_cancel frames (omega arith) in
      let some_frames : (frames == 0) ≡ false = ground arith in
      if_false {A = Result SplitError (Unit {0}) × List (SplitChannel R)} _ running
      ∙ ap (demux_frames process channels payload count) fits
      ∙ ap
          (λ n.
            if n == 0
            then (ok tt, channels)
            else feed process channels (channels_from payload count n 0 count))
          quotient
      ∙ if_false {A = Result SplitError (Unit {0}) × List (SplitChannel R)} _ some_frames

  -- The channels that a round of a ready publisher combined, whose slots hold finite samples, each
  -- active one at least one, come apart again: from the payload of the packet, with resamplers that
  -- pass their samples on, every queue of the split stream gets exactly one sample for each frame of
  -- the round, and these are the first that the slot of this channel held, or silence for a slot that was
  -- left out.
  pub split_combined :
      (rate : ℕ) (c : Combiner) (now timestamp_ns : ℕ) (channels : List (SplitChannel R))
      → PassesOn process
      → IsReady rate c
      → All (All IsSample) (held_by c)
      → (available_frames (after_drain now c).slots == 0) ≡ false
      → c.channel_count ≤ length channels
      → let (result, after) =
          demux_into_buffers process channels
            (drop 32 (packet_in now timestamp_ns c))
            c.channel_count in
        (result ≡ ok tt)
        × ((ch : ℕ)
            → ch < c.channel_count
            → (samples : List ℕ) × (length samples ≡ frames_in now c)
              × (get_or (buffers after) ch [] ≡ get_or (buffers channels) ch [] ++ samples)
              × ((frame : ℕ)
                  → frame < frames_in now c
                  → get_or samples frame 0 ≡ get_or (get_or (held_by c) ch []) frame 0))
  unfolding combined_packet audio_packet
  split_combined rate c now timestamp_ns channels passes r finite some_left enough =
      let drains = report_drops-Drains now c.last_drop_report c.slots in
      let (size, first) =
        interleaved_slots (frames_in now c) c.slots _ drains (drained-HaveFrames now c) in
      let samples = interleaved-IsSample (frames_in now c) c.slots _ drains finite in
      let words = words_of (samples_in now c) samples in
      let counted = r.counted in
      let whole : length (samples_in now c) ≡ frames_in now c * c.channel_count =
        size ∙ ap (λ k. frames_in now c * k) counted in
      let some_frames : 1 ≤ frames_in now c = ground (arith, some_left, r.some_frames) in
      let bytes : length (f32_bytes (samples_in now c)) ≡ frames_in now c * (c.channel_count * 4) =
        length-f32_bytes (samples_in now c) ∙ quarters _ (frames_in now c) c.channel_count whole in
      let taken =
        channels_from (f32_bytes (samples_in now c)) c.channel_count (frames_in now c) 0
          c.channel_count in
      let equal =
        demux_frames-fed channels (f32_bytes (samples_in now c)) c.channel_count (frames_in now c)
          bytes r.some_channels r.few_channels some_frames enough in
      let (fine, each) = subst (Feeds channels taken) (sym equal) (
        feed-Feeds channels taken passes (
          omega (
            arith,
            enough,
            length-channels_from (f32_bytes (samples_in now c)) c.channel_count (frames_in now c) 0
                c.channel_count,
          ))) in
      (
        fine,
        λ ch h. (
          get_or taken ch [],
          length-taken_channel (f32_bytes (samples_in now c)) c.channel_count (frames_in now c) ch
              h,
          each ch (
              omega (
                arith,
                h,
                length-channels_from (f32_bytes (samples_in now c)) c.channel_count
                    (frames_in now c) 0 c.channel_count,
              )),
          λ frame f.
              channels_from-f32_bytes (samples_in now c) c.channel_count (frames_in now c) frame ch
                words whole f h
              ∙ ap (λ k. get_or (samples_in now c) (frame * k + ch) 0) (sym counted)
              ∙ first frame ch f (omega (arith, counted)),
        ),
      )
    where
      quarters : (n frames count : ℕ) → n ≡ frames * count → n * 4 ≡ frames * (count * 4)
      quarters n frames count e = grind (arith, e)

      words_of : (xs : List ℕ) → All IsSample xs → All IsU32 xs
      words_of [] h = tt
      words_of (x ∷ xs) ((w, f), h) = (w, words_of xs h)
