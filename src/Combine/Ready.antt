-- ===== src/Combine/Ready.antt =====
-- The combined publisher after its setup, through captures and rounds.
use open_audio.Common.{
  ℕ, suc, ◌+◌, ◌*◌, ◌/◌, ◌≤◌, ◌≡◌, refl, sym, ap, ◌∙◌, Bool, false, ltb, ◌==◌, arith,
}
use open_audio.Common.{List, [], ◌∷◌, map, length, All, inl, inr, Option-cases}
use mathlib.Core.Path.{subst}
use open_audio.Common.Outcome.{Result, ok, err, Result-cases}
use open_audio.Common.Bytes.{IsU32}
use open_audio.Protocol.{max_float32_frames_per_packet, sample_rate_to_code}
use open_audio.Protocol.AudioRoundTrip.{IsSample}
use open_audio.Discovery.{SubscriberRegistry}
use open_audio.AudioQueue.{BoundedAudioQueue, new_queue}
use open_audio.Combine.{
  Source, left_out, device, ChannelSlot, CombineError, Combiner, capture_queue, open_source,
  open_sources, first_rate, check_rates, frames_limit, set_up,
}
use open_audio.Combine.Slots.{slot_held}
use open_audio.Combine.Rounds.{IsReady, held_by}

capture_queue-empty :
    (rate : ℕ) (queue : BoundedAudioQueue) → capture_queue rate ≡ ok queue → queue.blocks ≡ []
unfolding new_queue
capture_queue-empty rate queue e = ground arith

open_source-held :
    (recording : Bool) (index : ℕ) (source : Source) (slot : ChannelSlot)
    → open_source recording index source ≡ ok slot
    → slot_held slot ≡ []
unfolding new_queue
open_source-held recording index left_out slot e = ground arith
open_source-held recording index (device input_channels rate) slot e =
    elim (Result-cases (capture_queue rate)) [
      | inl (error, refused) ↦ ground (arith, refused)
      | inr (queue, opened) ↦ ground (arith, opened, capture_queue-empty rate queue opened)
    ]

slots_in : Result CombineError (List ChannelSlot) → List ChannelSlot
slots_in (ok slots) = slots
slots_in (err e) = []

-- As many slots as sources, which hold nothing.
abbrev Opened : List Source → List ChannelSlot → Type 0
Opened sources slots = (length slots ≡ length sources) × All (All IsSample) (map slot_held slots)

open_sources-Opened :
    (recording : Bool) (sources : List Source) (index : ℕ) (slots : List ChannelSlot)
    → open_sources recording index sources ≡ ok slots
    → Opened sources slots
unfolding slots_in
open_sources-Opened recording [] index slots e = subst (Opened []) (ap slots_in e) (refl, tt)
open_sources-Opened recording (source ∷ rest) index slots e =
    elim (Result-cases (open_source recording index source)) [
      | inl (error, refused) ↦ absurd (ground (arith, refused))
      | inr (slot, opened) ↦ elim (Result-cases (open_sources recording (index + 1) rest)) [
        | inl (error, refused) ↦ absurd (ground (arith, opened, refused))
        | inr (later, rest_opened) ↦
            let (size, finite) = open_sources-Opened recording rest (index + 1) later rest_opened in
            let here : open_sources recording index (source ∷ rest) ≡ ok (slot ∷ later) =
              rw (opened, rest_opened) refl in
            let nothing = open_source-held recording index source slot opened in
            subst (Opened (source ∷ rest)) (ap slots_in (sym here ∙ e))
              (ap suc size, (subst (All IsSample) (sym nothing) tt, finite))
      ]
    ]

frames_limit-bounds :
    (channel_count frames : ℕ)
    → frames_limit channel_count ≡ ok frames
    → (1 ≤ frames) × (frames ≤ 1168 / (channel_count * 4))
unfolding max_float32_frames_per_packet
frames_limit-bounds channel_count frames e = (ground arith, ground arith)

-- A publisher that the setup made is ready, at the rate of its first device, and holds no sample.
built : ℕ → List ChannelSlot → ℕ → ℕ → ℕ → SubscriberRegistry → ℕ → Combiner
built stream_id slots channel_count frames rate registry now = record {
  stream_id = stream_id;
  channel_count = channel_count;
  max_frames_per_packet = frames;
  sample_rate_code = sample_rate_to_code rate;
  slots = slots;
  sequence = 0;
  last_drop_report = now;
  registry = registry;
}

abbrev pub Starts : Combiner → Type 0
Starts c = ((rate : ℕ) × IsReady rate c) × All (All IsSample) (held_by c)

combiner_in : Combiner → Result CombineError Combiner → Combiner
combiner_in c (ok d) = d
combiner_in c (err e) = c

pub set_up-IsReady :
    (stream_id : ℕ) (recording : Bool) (sources : List Source) (registry : SubscriberRegistry)
    (now : ℕ) (c : Combiner)
    → IsU32 stream_id
    → set_up stream_id recording sources registry now ≡ ok c
    → Starts c
unfolding set_up built combiner_in
set_up-IsReady stream_id recording sources registry now c u e =
    elim (Result-cases (frames_limit (length sources))) [
      | inl (error, refused) ↦ absurd (ground (arith, refused))
      | inr (frames, limited) ↦ elim (Result-cases (open_sources recording 0 sources)) [
        | inl (error, refused) ↦ absurd (ground (arith, limited, refused))
        | inr (slots, opened) ↦ elim (Option-cases (first_rate slots)) [
          | inl no_rate ↦ absurd (ground (arith, limited, opened, no_rate))
          | inr (rate, at_rate) ↦ elim (Result-cases (check_rates rate slots)) [
            | inl (error, refused) ↦ absurd (ground (arith, limited, opened, at_rate, refused))
            | inr (u1, same_rates) ↦
                let not_zero : (length sources == 0) ≡ false = ground arith in
                let few : ltb 255 (length sources) ≡ false = ground arith in
                let known : (sample_rate_to_code rate == 0) ≡ false =
                  ground (arith, limited, opened, at_rate, same_rates) in
                let made = built stream_id slots (length sources) frames rate registry now in
                let here : set_up stream_id recording sources registry now ≡ ok made =
                  rw (not_zero, few, limited, opened, at_rate, same_rates, known) refl in
                let (size, finite) = open_sources-Opened recording sources 0 slots opened in
                let (f1, f2) = frames_limit-bounds (length sources) frames limited in
                subst Starts (ap (combiner_in made) (sym here ∙ e)) (
                  (
                    rate,
                    record {
                      counted = size;
                      some_channels = ground (arith, not_zero);
                      few_channels = ground (arith, few);
                      some_frames = f1;
                      few_frames = f2;
                      coded = refl;
                      known = ground (arith, known);
                      stream = u;
                      numbered = omega arith;
                    },
                  ),
                  finite,
                )
          ]
        ]
      ]
    ]
