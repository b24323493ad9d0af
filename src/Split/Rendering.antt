-- ===== src/Split/Rendering.antt =====
-- Blocks that crates/audio-core/src/split.rs renders to a device.
use open_audio.Common.{
  ℕ, zero, suc, ◌+◌, ◌-◌, ◌*◌, ◌/◌, ◌≤◌, ◌<◌, ◌≡◌, refl, ap, ◌∙◌, arith, ◌==◌, false,
}
use open_audio.Common.{List, [], ◌∷◌, ◌++◌, length, drop, get_or, length-append}
use native.Mathlib.Nat.{div-mul-le_self}
use open_audio.Common.Index.{get_or-append, get_or-append_after}
use open_audio.Split.{spread, front_or_silence, behind_front, split_frames, render_split_channel}

length-spread : (n sample : ℕ) → length (spread n sample) ≡ n
length-spread zero sample = refl
length-spread (suc n) sample = ap suc (length-spread n sample)

get_or-spread : (n sample i : ℕ) → i < n → get_or (spread n sample) i 0 ≡ sample
get_or-spread zero sample i h = absurd (omega arith)
get_or-spread (suc n) sample zero h = refl
get_or-spread (suc n) sample (suc i) h = get_or-spread n sample i (omega arith)

spread_silence : (n i : ℕ) → get_or (spread n 0) i 0 ≡ 0
spread_silence zero i = refl
spread_silence (suc n) zero = refl
spread_silence (suc n) (suc i) = spread_silence n i

drop-behind_front : (n : ℕ) (buffer : List ℕ) → drop n (behind_front buffer) ≡ drop (suc n) buffer
drop-behind_front zero [] = refl
drop-behind_front (suc n) [] = refl
drop-behind_front n (x ∷ xs) = refl

get_or-behind_front :
    (buffer : List ℕ) (k : ℕ) → get_or (behind_front buffer) k 0 ≡ get_or buffer (suc k) 0
get_or-behind_front [] k = refl
get_or-behind_front (x ∷ xs) k = refl

front_is_first : (buffer : List ℕ) → front_or_silence buffer ≡ get_or buffer 0 0
front_is_first [] = refl
front_is_first (x ∷ xs) = refl

abbrev Plays : (ℕ → ℕ) → ℕ → ℕ → List ℕ → List ℕ → Type 0
Plays clamp oc n buffer rendered =
    (length rendered ≡ n * oc)
    × ((k i : ℕ) → k < n → i < oc → get_or rendered (k * oc + i) 0 ≡ clamp (get_or buffer k 0))

split_frames-drop :
    (clamp : ℕ → ℕ) (oc n : ℕ) (buffer : List ℕ)
    → (split_frames clamp oc n buffer).1 ≡ drop n buffer
split_frames-drop clamp oc zero buffer = refl
split_frames-drop clamp oc (suc n) buffer =
    split_frames-drop clamp oc n (behind_front buffer) ∙ drop-behind_front n buffer

split_frames-Plays :
    (clamp : ℕ → ℕ) (oc n : ℕ) (buffer : List ℕ)
    → Plays clamp oc n buffer (split_frames clamp oc n buffer).0
split_frames-Plays clamp oc zero buffer = (omega arith, λ k i h b. absurd (omega arith))
split_frames-Plays clamp oc (suc n) buffer =
    let (size, later) = split_frames-Plays clamp oc n (behind_front buffer) in
    let counted : length outputs ≡ oc = length-spread oc (clamp (front_or_silence buffer)) in
    (length-append outputs rest ∙ grind (arith, counted, size), each later counted)
  where
    outputs : List ℕ
    outputs = spread oc (clamp (front_or_silence buffer))

    rest : List ℕ
    rest = (split_frames clamp oc n (behind_front buffer)).0

    each :
        ((k i : ℕ)
          → k < n
          → i < oc
          → get_or rest (k * oc + i) 0 ≡ clamp (get_or (behind_front buffer) k 0))
        → length outputs ≡ oc
        → (k i : ℕ) → k < suc n
        → i < oc
        → get_or (outputs ++ rest) (k * oc + i) 0 ≡ clamp (get_or buffer k 0)
    each later counted zero i h b =
        let here : 0 * oc + i ≡ i = omega arith in
        ap (λ j. get_or (outputs ++ rest) j 0) here
        ∙ get_or-append outputs rest i (omega (arith, counted, b))
        ∙ get_or-spread oc (clamp (front_or_silence buffer)) i b
        ∙ ap clamp (front_is_first buffer)
    each later counted (suc k) i h b =
        let there : suc k * oc + i ≡ length outputs + (k * oc + i) = omega (arith, counted) in
        ap (λ j. get_or (outputs ++ rest) j 0) there
        ∙ get_or-append_after outputs rest (k * oc + i)
        ∙ later k i (omega arith) b
        ∙ ap clamp (get_or-behind_front buffer k)

-- A block for a device with outputs: it is as long as the block that was asked for; every output of
-- the frame `k` has the clamped sample `k` of the queue, or clamped silence behind its end; the
-- samples that make up no frame are silent; and the queue has lost its first samples, one for each
-- frame.
pub render_split_channel_lem :
    (clamp : ℕ → ℕ) (samples oc : ℕ) (buffer : List ℕ)
    → 1 ≤ oc
    → let frames = samples / oc in
      let (rendered, after) = render_split_channel clamp samples oc buffer in
      (length rendered ≡ samples)
      × (after ≡ drop frames buffer)
      × ((k i : ℕ)
          → k < frames
          → i < oc
          → get_or rendered (k * oc + i) 0 ≡ clamp (get_or buffer k 0))
      × ((i : ℕ) → frames * oc ≤ i → get_or rendered i 0 ≡ 0)
unfolding render_split_channel
render_split_channel_lem clamp samples oc buffer some_outputs =
    let frames = samples / oc in
    let running : (oc == 0) ≡ false = ground arith in
    let fits : frames * oc ≤ samples = div-mul-le_self samples oc in
    let rendered = (split_frames clamp oc frames buffer).0 in
    let tail = spread (samples - frames * oc) 0 in
    let (size, each) = split_frames-Plays clamp oc frames buffer in
    let filled : length tail ≡ samples - frames * oc = length-spread (samples - frames * oc) 0 in
    rw running (
      (
        length-append rendered tail ∙ omega (arith, size, fits, filled),
        split_frames-drop clamp oc frames buffer,
        (λ k i h b.
            get_or-append rendered tail (k * oc + i) (inside k i frames (length rendered) size h b)
            ∙ each k i h b),
        λ i h.
            let there : i ≡ length rendered + (i - frames * oc) = omega (arith, size, h) in
            ap (λ j. get_or (rendered ++ tail) j 0) there
            ∙ get_or-append_after rendered tail (i - frames * oc)
            ∙ spread_silence (samples - frames * oc) (i - frames * oc),
      ))
  where
    inside : (k i n size : ℕ) → size ≡ n * oc → k < n → i < oc → k * oc + i < size
    inside k i n size e h b = grind (arith, e, h, b)
