-- ===== src/Combine/Interleaving.antt =====
-- The interleaved samples that a round of the combined publisher sends.
use open_audio.Common.{ℕ, zero, suc, ◌+◌, ◌*◌, ◌<◌, ◌≡◌, refl, sym, ap, ◌∙◌, arith}
use open_audio.Common.{
  List, [], ◌∷◌, ◌++◌, map, length, take, get_or, length-append, All, All-append,
}
use open_audio.Common.Index.{get_or-append, get_or-append_after}
use mathlib.Core.Path.{subst}
use open_audio.Protocol.AudioRoundTrip.{IsSample}
use open_audio.Combine.{
  ChannelSlot, active, skipped, silence, slot_samples, frame_samples, interleave_from, interleave,
}
use open_audio.Combine.Slots.{slot_held, samples_of, Drains, HaveFrames}

get_or-take : (n : ℕ) (xs : List ℕ) (i : ℕ) → i < n → get_or (take n xs) i 0 ≡ get_or xs i 0
get_or-take zero xs i h = absurd (omega arith)
get_or-take (suc n) [] i h = refl
get_or-take (suc n) (x ∷ xs) zero h = refl
get_or-take (suc n) (x ∷ xs) (suc i) h = get_or-take n xs i (omega arith)

get_or-silence : (n i : ℕ) → get_or (silence n) i 0 ≡ 0
get_or-silence zero i = refl
get_or-silence (suc n) zero = refl
get_or-silence (suc n) (suc i) = get_or-silence n i

-- A sample of a slot for the packet is the one that the slot held.
slot_samples-held :
    (frames i : ℕ) (slots drained : List ChannelSlot) (ch : ℕ)
    → i < frames
    → Drains slots drained
    → HaveFrames frames drained
    → get_or (get_or (map (slot_samples frames) drained) ch []) i 0
      ≡ get_or (get_or (map slot_held slots) ch []) i 0
slot_samples-held frames i [] [] ch f d h = refl
slot_samples-held frames i [] (t ∷ drained) ch f d h = absurd d
slot_samples-held frames i (s ∷ slots) [] ch f d h = absurd d
slot_samples-held frames i (s ∷ slots) (skipped ∷ drained) zero f ((e, k), d) h =
    rw (sym e) (get_or-silence frames i)
slot_samples-held frames i (s ∷ slots) (active channel ∷ drained) zero f ((e, k), d) (enough, h) =
    rw (sym e) (
      get_or-take frames channel.pending i f
      ∙ sym (get_or-append channel.pending (samples_of channel.buffer.blocks) i (omega arith)))
slot_samples-held frames i (s ∷ slots) (skipped ∷ drained) (suc ch) f (k, d) h =
    slot_samples-held frames i slots drained ch f d h
slot_samples-held frames i (s ∷ slots) (active channel ∷ drained) (suc ch) f (k, d) (enough, h) =
    slot_samples-held frames i slots drained ch f d h

length-frame_samples :
    (channels : List (List ℕ)) (frame : ℕ) → length (frame_samples channels frame) ≡ length channels
length-frame_samples [] frame = refl
length-frame_samples (samples ∷ channels) frame = ap suc (length-frame_samples channels frame)

get_or-frame_samples :
    (channels : List (List ℕ)) (frame ch : ℕ)
    → get_or (frame_samples channels frame) ch 0 ≡ get_or (get_or channels ch []) frame 0
get_or-frame_samples [] frame ch = refl
get_or-frame_samples (samples ∷ channels) frame zero = refl
get_or-frame_samples (samples ∷ channels) frame (suc ch) = get_or-frame_samples channels frame ch

pub length-interleave :
    (channels : List (List ℕ)) (frame n : ℕ)
    → length (interleave_from channels frame n) ≡ n * length channels
length-interleave channels frame zero = omega arith
length-interleave channels frame (suc n) = omega (
  arith,
  length-append (frame_samples channels frame) (interleave_from channels (frame + 1) n),
  length-frame_samples channels frame,
  length-interleave channels (frame + 1) n,
)

get_or-interleave :
    (channels : List (List ℕ)) (from n frame ch : ℕ)
    → frame < n
    → ch < length channels
    → get_or (interleave_from channels from n) (frame * length channels + ch) 0
      ≡ get_or (get_or channels ch []) (from + frame) 0
get_or-interleave channels from zero frame ch f h = absurd (omega arith)
get_or-interleave channels from (suc n) zero ch f h =
    let size = length-frame_samples channels from in
    ap (λ i. get_or (interleave_from channels from (suc n)) i 0) (omega arith)
    ∙ get_or-append (frame_samples channels from) _ ch (omega (arith, size))
    ∙ get_or-frame_samples channels from ch
    ∙ ap (λ i. get_or (get_or channels ch []) i 0) (omega arith)
get_or-interleave channels from (suc n) (suc frame) ch f h =
    let size = length-frame_samples channels from in
    ap (λ i. get_or (interleave_from channels from (suc n)) i 0) (omega (arith, size))
    ∙ get_or-append_after (frame_samples channels from) _ (frame * length channels + ch)
    ∙ get_or-interleave channels (from + 1) n frame ch (omega arith) h
    ∙ ap (λ i. get_or (get_or channels ch []) i 0) (omega arith)

length-map_slots :
    (slots drained : List ChannelSlot) (frames : ℕ)
    → Drains slots drained
    → length (map (slot_samples frames) drained) ≡ length slots
length-map_slots [] [] frames d = refl
length-map_slots [] (t ∷ drained) frames d = absurd d
length-map_slots (s ∷ slots) [] frames d = absurd d
length-map_slots (s ∷ slots) (t ∷ drained) frames (k, d) =
    ap suc (length-map_slots slots drained frames d)

-- The interleaved samples of a round: `frames` for each slot, sample by sample those that it held.
pub interleaved_slots :
    (frames : ℕ) (slots drained : List ChannelSlot)
    → Drains slots drained
    → HaveFrames frames drained
    → let interleaved = interleave (map (slot_samples frames) drained) frames in
      (length interleaved ≡ frames * length slots)
      × ((frame ch : ℕ)
          → frame < frames
          → ch < length slots
          → get_or interleaved (frame * length slots + ch) 0
            ≡ get_or (get_or (map slot_held slots) ch []) frame 0)
interleaved_slots frames slots drained d h =
    let n = length-map_slots slots drained frames d in
    (
      length-interleave (map (slot_samples frames) drained) 0 frames ∙ ap (λ k. frames * k) n,
      λ frame ch f c.
          ap
            (λ k. get_or (interleave (map (slot_samples frames) drained) frames) (frame * k + ch) 0)
            (sym n)
          ∙ get_or-interleave (map (slot_samples frames) drained) 0 frames frame ch f
              (omega (arith, n))
          ∙ ap (λ i. get_or (get_or (map (slot_samples frames) drained) ch []) i 0) (omega arith)
          ∙ slot_samples-held frames frame slots drained ch f d h,
    )

-- The samples stay finite: those of the slots, and silence.
zero-IsSample : IsSample 0
zero-IsSample = (omega arith, refl)

pub get_or-IsSample : (xs : List ℕ) (i : ℕ) → All IsSample xs → IsSample (get_or xs i 0)
get_or-IsSample [] i h = zero-IsSample
get_or-IsSample (x ∷ xs) zero (s, h) = s
get_or-IsSample (x ∷ xs) (suc i) (s, h) = get_or-IsSample xs i h

frame_samples-IsSample :
    (channels : List (List ℕ)) (frame : ℕ)
    → All (All IsSample) channels
    → All IsSample (frame_samples channels frame)
frame_samples-IsSample [] frame h = tt
frame_samples-IsSample (samples ∷ channels) frame (s, h) =
    (get_or-IsSample samples frame s, frame_samples-IsSample channels frame h)

interleave-IsSample :
    (channels : List (List ℕ)) (frame n : ℕ)
    → All (All IsSample) channels
    → All IsSample (interleave_from channels frame n)
interleave-IsSample channels frame zero h = tt
interleave-IsSample channels frame (suc n) h =
    All-append IsSample (frame_samples channels frame) _ (frame_samples-IsSample channels frame h)
      (interleave-IsSample channels (frame + 1) n h)

silence-IsSample : (n : ℕ) → All IsSample (silence n)
silence-IsSample zero = tt
silence-IsSample (suc n) = (zero-IsSample, silence-IsSample n)

take-IsSample : (n : ℕ) (xs ys : List ℕ) → All IsSample (xs ++ ys) → All IsSample (take n xs)
take-IsSample zero xs ys h = tt
take-IsSample (suc n) [] ys h = tt
take-IsSample (suc n) (x ∷ xs) ys (s, h) = (s, take-IsSample n xs ys h)

slot_samples-IsSample :
    (frames : ℕ) (slots drained : List ChannelSlot)
    → Drains slots drained
    → All (All IsSample) (map slot_held slots)
    → All (All IsSample) (map (slot_samples frames) drained)
slot_samples-IsSample frames [] [] d h = tt
slot_samples-IsSample frames [] (t ∷ drained) d h = absurd d
slot_samples-IsSample frames (s ∷ slots) [] d h = absurd d
slot_samples-IsSample frames (s ∷ slots) (skipped ∷ drained) (k, d) (p, h) =
    (silence-IsSample frames, slot_samples-IsSample frames slots drained d h)
slot_samples-IsSample frames (s ∷ slots) (active channel ∷ drained) ((e, k), d) (p, h) = (
  take-IsSample frames channel.pending (samples_of channel.buffer.blocks)
      (subst (All IsSample) (sym e) p),
  slot_samples-IsSample frames slots drained d h,
)

pub interleaved-IsSample :
    (frames : ℕ) (slots drained : List ChannelSlot)
    → Drains slots drained
    → All (All IsSample) (map slot_held slots)
    → All IsSample (interleave (map (slot_samples frames) drained) frames)
interleaved-IsSample frames slots drained d h =
    interleave-IsSample (map (slot_samples frames) drained) 0 frames
      (slot_samples-IsSample frames slots drained d h)
