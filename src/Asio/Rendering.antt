-- ===== src/Asio/Rendering.antt =====
-- Blocks that the driver of crates/audio-core/src/asio_subscribe.rs gets, frame by frame.
use open_audio.Common.{
  ℕ, zero, suc, ◌+◌, ◌-◌, ◌*◌, ◌/◌, ◌≤◌, ◌<◌, ◌≡◌, refl, sym, ap, ◌∙◌, true, false, ltb, leb, ◌==◌,
  ◌||◌, if◌then◌else◌, arith,
}
use open_audio.Common.{
  List, [], ◌∷◌, length, drop, get_or, All, Bool-cases, inl, inr, if_false, if_true, length-drop,
}
use mathlib.Core.Path.{subst}
use open_audio.Common.Outcome.{ok, Result-cases}
use open_audio.Common.Index.{get_or-flatten}
use open_audio.Asio.{
  Mixer, Routes, check_routes, validate_routes, zeros, divisor, build_route_divisors, route_samples,
  scale_frame, render_frames, render_routed_audio,
}
use open_audio.Asio.Routing.{
  routes_to, mixed_for, AreRouted, check_routes-AreRouted, route_samples-mixed, length-scale_frame,
  get_or-scale_frame, length-zeros, get_or-zeros, get_or-build_route_divisors,
}

drop-empty : (n : ℕ) → drop {A = ℕ} n [] ≡ []
drop-empty zero = refl
drop-empty (suc n) = refl

drop-drop : (n m : ℕ) (xs : List ℕ) → drop n (drop m xs) ≡ drop (m + n) xs
drop-drop n zero xs = ap (λ k. drop k xs) (omega arith)
drop-drop n (suc m) [] = drop-empty n ∙ sym (drop-empty (suc m + n))
drop-drop n (suc m) (x ∷ xs) =
    let same : suc m + n ≡ suc (m + n) = omega arith in
    drop-drop n m xs ∙ ap (λ k. drop k (x ∷ xs)) (sym same)

-- What an output gets in a frame, from the buffer at the block's beginning.
abbrev pub output_sample : Mixer → ℕ → Routes → List ℕ → List ℕ → ℕ → ℕ → ℕ
output_sample mixer ic routes divisors buffer k o =
    if leb ((k + 1) * ic) (length buffer)
    then mixer.clamp
        (mixer.multiply (mixed_for mixer o routes (drop (k * ic) buffer) 0) (get_or divisors o 0))
    else 0

abbrev Rendered : Mixer → ℕ → ℕ → Routes → List ℕ → ℕ → List ℕ → List (List ℕ) → Type 0
Rendered mixer ic oc routes divisors n buffer frames =
    (length frames ≡ n)
    × All (λ xs. length xs ≡ oc) frames
    × ((k o : ℕ)
        → k < n
        → o < oc
        → get_or (get_or frames k []) o 0 ≡ output_sample mixer ic routes divisors buffer k o)

silent_frame :
    (mixer : Mixer) (ic oc : ℕ) (routes : Routes) (divisors : List ℕ) (n : ℕ) (buffer : List ℕ)
    (frames : List (List ℕ))
    → length buffer < ic
    → Rendered mixer ic oc routes divisors n buffer frames
    → Rendered mixer ic oc routes divisors (suc n) buffer (zeros oc ∷ frames)
silent_frame mixer ic oc routes divisors n buffer frames short (size, sizes, samples) =
    (ap suc size, (length-zeros oc, sizes), each)
  where
    silent : (k : ℕ) → leb ((k + 1) * ic) (length buffer) ≡ false
    silent k = let more : ic ≤ (k + 1) * ic = grind arith in ground (arith, more)

    each :
        (k o : ℕ)
        → k < suc n
        → o < oc
        → get_or (get_or (zeros oc ∷ frames) k []) o 0
          ≡ output_sample mixer ic routes divisors buffer k o
    each zero o a b = get_or-zeros oc o ∙ sym (if_false _ (silent 0))
    each (suc k) o a b =
        samples k o (omega arith) b ∙ if_false _ (silent k) ∙ sym (if_false _ (silent (suc k)))

full_frame :
    (mixer : Mixer) (ic oc : ℕ) (routes : Routes) (divisors : List ℕ) (n : ℕ)
    (buffer mixed : List ℕ) (frames : List (List ℕ))
    → ic ≤ length buffer
    → length mixed ≡ oc
    → ((o : ℕ)
        → o < oc
        → get_or mixed o 0 ≡ mixed_for mixer o routes buffer (get_or (zeros oc) o 0))
    → Rendered mixer ic oc routes divisors n (drop ic buffer) frames
    → Rendered mixer ic oc routes divisors
        (suc n)
        buffer
        (scale_frame mixer mixed divisors ∷ frames)
full_frame mixer ic oc routes divisors n buffer mixed frames enough size_mixed sums
      (size, sizes, samples) =
    (ap suc size, (length-scale_frame mixer mixed divisors ∙ size_mixed, sizes), each)
  where
    there : leb ((0 + 1) * ic) (length buffer) ≡ true
    there = ground arith

    moved :
        (k : ℕ)
        → leb ((k + 1) * ic) (length (drop ic buffer)) ≡ leb ((suc k + 1) * ic) (length buffer)
    moved k =
        let left = length-drop ic buffer in
        let grows : (suc k + 1) * ic ≡ (k + 1) * ic + ic = grind arith in
        ground (arith, left, grows)

    each :
        (k o : ℕ)
        → k < suc n
        → o < oc
        → get_or (get_or (scale_frame mixer mixed divisors ∷ frames) k []) o 0
          ≡ output_sample mixer ic routes divisors buffer k o
    each zero o a b =
        let start : 0 * ic ≡ 0 = omega arith in
        get_or-scale_frame mixer mixed divisors o (omega (arith, size_mixed))
        ∙ ap (λ x. mixer.clamp (mixer.multiply x (get_or divisors o 0)))
            (sums o b
              ∙ ap (mixed_for mixer o routes buffer) (get_or-zeros oc o)
              ∙ ap (λ j. mixed_for mixer o routes (drop j buffer) 0) (sym start))
        ∙ sym (if_true 0 there)
    each (suc k) o a b =
        let further : ic + k * ic ≡ suc k * ic = grind arith in
        samples k o (omega arith) b
        ∙ ap
            (λ t.
              if t
              then mixer.clamp (
                  mixer.multiply (mixed_for mixer o routes (drop (k * ic) (drop ic buffer)) 0)
                    (get_or divisors o 0))
              else 0)
            (moved k)
        ∙ ap
            (λ l.
              if leb ((suc k + 1) * ic) (length buffer)
              then mixer.clamp (mixer.multiply (mixed_for mixer o routes l 0) (get_or divisors o 0))
              else 0)
            (drop-drop (k * ic) ic buffer ∙ ap (λ j. drop j buffer) further)

render_frames-Rendered :
    (mixer : Mixer) (ic oc : ℕ) (routes : Routes) (divisors : List ℕ) (n : ℕ) (buffer : List ℕ)
    → AreRouted oc routes
    → length routes ≡ ic
    → Rendered mixer ic oc routes divisors n buffer
        (render_frames mixer ic oc routes divisors n buffer).0
render_frames-Rendered mixer ic oc routes divisors zero buffer a e =
    (refl, tt, λ k o h. absurd (omega arith))
render_frames-Rendered mixer ic oc routes divisors (suc n) buffer a e =
    let (size, rest, sums) =
      route_samples-mixed mixer ic oc 0 routes buffer (zeros oc) a (omega (arith, e))
        (length-zeros oc) in
    let mixed = (route_samples mixer ic oc 0 routes buffer (zeros oc)).0 in
    let further = (route_samples mixer ic oc 0 routes buffer (zeros oc)).1 in
    let left : further ≡ drop ic buffer = rest ∙ ap (λ k. drop k buffer) e in
    elim (Bool-cases (ltb (length buffer) ic)) [
      | inl short ↦
          subst
            (λ b. Rendered mixer ic oc routes divisors (suc n) buffer (
              (if b then zeros oc else scale_frame mixer mixed divisors)
              ∷ (render_frames mixer ic oc routes divisors n (if b then buffer else further)).0))
            (sym short)
            (silent_frame mixer ic oc routes divisors n buffer _ (ground (arith, short))
              (render_frames-Rendered mixer ic oc routes divisors n buffer a e))
      | inr enough ↦
          subst
            (λ b. Rendered mixer ic oc routes divisors (suc n) buffer (
              (if b then zeros oc else scale_frame mixer mixed divisors)
              ∷ (render_frames mixer ic oc routes divisors n (if b then buffer else further)).0))
            (sym enough)
            (subst
              (λ l. Rendered mixer ic oc routes divisors (suc n) buffer (
                scale_frame mixer mixed divisors
                ∷ (render_frames mixer ic oc routes divisors n l).0))
              (sym left)
              (full_frame mixer ic oc routes divisors n buffer mixed _ (ground (arith, enough)) size
                sums (render_frames-Rendered mixer ic oc routes divisors n (drop ic buffer) a e)))
    ]

validated-AreRouted :
    (routes : Routes) (ic oc : ℕ)
    → validate_routes routes ic oc ≡ ok tt
    → AreRouted oc routes × (length routes ≡ ic) × (1 ≤ oc)
unfolding validate_routes
validated-AreRouted routes ic oc e = elim (Result-cases (check_routes routes 0 oc)) [
  | inl (error, refused) ↦ absurd (ground (arith, refused))
  | inr (u, checked) ↦ (check_routes-AreRouted routes 0 oc checked, ground arith, ground arith)
]

-- With routes that were validated for a stream of at least one channel, frame `k` of a block has at
-- each output the sum, in the order of the channels, of the samples that are routed to it, times the
-- divisor for their number, and clamped, if the buffer holds `k + 1` frames, and silence otherwise.
pub render_routed_audio_lem :
    (mixer : Mixer) (routes : Routes) (ic oc samples : ℕ) (buffer : List ℕ)
    → validate_routes routes ic oc ≡ ok tt
    → 1 ≤ ic
    → (k o : ℕ) → k < samples / oc
    → o < oc
    → get_or
        (render_routed_audio mixer buffer samples ic oc routes
          (build_route_divisors mixer routes oc)).0
        (k * oc + o)
        0
      ≡ (if leb ((k + 1) * ic) (length buffer)
          then mixer.clamp (
              mixer.multiply
                (mixed_for mixer o routes (drop (k * ic) buffer) 0)
                (divisor mixer (routes_to o routes)))
          else 0)
unfolding render_routed_audio
render_routed_audio_lem mixer routes ic oc samples buffer valid i1 k o a b =
    let (routed, counted, o1) = validated-AreRouted routes ic oc valid in
    let divisors = build_route_divisors mixer routes oc in
    let (size, sizes, each) =
      render_frames-Rendered mixer ic oc routes divisors (samples / oc) buffer routed counted in
    let running : (ic == 0 || oc == 0) ≡ false = ground arith in
    rw running (
      get_or-flatten oc (render_frames mixer ic oc routes divisors (samples / oc) buffer).0
        (zeros (samples - samples / oc * oc)) k o sizes (omega (arith, size)) b
      ∙ each k o a b
      ∙ ap
          (λ d.
            if leb ((k + 1) * ic) (length buffer)
            then mixer.clamp (mixer.multiply (mixed_for mixer o routes (drop (k * ic) buffer) 0) d)
            else 0)
          (get_or-build_route_divisors mixer oc o routes routed b))
