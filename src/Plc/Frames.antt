-- ===== src/Plc/Frames.antt =====
-- Whole frames through the concealment: no call panics, and the lengths are those of the audio.
use open_audio.Common.{ℕ, zero, suc, ◌+◌, ◌*◌, ◌/◌, ◌≤◌, ◌≡◌, refl, ap, sym, ◌∙◌, arith, min, max}
use open_audio.Common.{true, false, Bool-cases, inl, inr, ltb, leb, ◌<◌, ◌==◌, ==_iff, ◌++◌}
use open_audio.Common.{
  some, List, [], ◌∷◌, length, take, drop, map, length-append, length-take, length-drop,
}
use native.Mathlib.Nat.{div-mul-le_self}
use open_audio.Plc.{
  Floats, PacketLossConcealer, max_floats, repeat, new_concealer, set_channel_count, fade_in, faded,
  decay_frame, conceal, synthesize_concealment,
}

module _ {F : Type 0} (floats : Floats F) where
  -- The last frame has a sample for each channel, and there is a channel, but not more than `most`.
  pub record IsValid (most : ℕ) (p : PacketLossConcealer F) : Type 0 where
    pub whole_frame : length p.last_samples ≡ p.channel_count
    pub some_channel : 1 ≤ p.channel_count
    pub few_channels : p.channel_count ≤ most

  length-map : (f : F → F) (xs : List F) → length (map f xs) ≡ length xs
  length-map f [] = refl
  length-map f (x ∷ xs) = ap suc (length-map f xs)

  length-repeat : (n : ℕ) (s : F) → length (repeat n s) ≡ n
  length-repeat zero s = refl
  length-repeat (suc n) s = ap suc (length-repeat n s)

  -- As many frames as the samples have are scaled without a panic.
  length-fade_in :
      (channels fade_frames n frame : ℕ) (samples : List F)
      → n * channels ≤ length samples
      → (out : List F) × (fade_in floats channels fade_frames n frame samples ≡ some out)
        × (length out ≡ length samples)
  unfolding fade_in
  length-fade_in channels fade_frames zero frame samples h = (samples, refl, refl)
  length-fade_in channels fade_frames (suc n) frame samples h =
      let scale : F → F = λ s. floats.scale s (floats.gain frame fade_frames) in
      let first = map scale (take channels samples) in
      let inside : leb channels (length samples) ≡ true = ground (arith, one_frame n channels) in
      let (rest, made, size) =
        length-fade_in channels fade_frames n (frame + 1) (drop channels samples)
          (omega (arith, length-drop channels samples, one_frame n channels)) in
      (
        first ++ rest,
        rw (inside, made) refl,
        omega (
          arith,
          length-append first rest,
          length-map scale (take channels samples),
          length-take channels samples,
          length-drop channels samples,
          size,
          one_frame n channels,
        ),
      )
    where
      one_frame : (n channels : ℕ) → suc n * channels ≡ channels + n * channels
      one_frame n channels = omega arith

  pub length-faded :
      (p : PacketLossConcealer F) (samples : List F)
      → (out : List F) × (faded floats p samples ≡ some out) × (length out ≡ length samples)
  length-faded p samples =
      let n = min (length samples / p.channel_count) 32 in
      let whole : n * p.channel_count ≤ length samples =
        few_frames n (length samples / p.channel_count) p.channel_count (length samples)
          (omega arith) (div-mul-le_self (length samples) p.channel_count) in
      elim (Bool-cases (ltb 1 n)) [
        | inl e ↦ rw e (length-fade_in p.channel_count n n 0 samples whole)
        | inr e ↦ rw e (samples, refl, refl)
      ]
    where
      few_frames :
          (n most channels size : ℕ) → n ≤ most → most * channels ≤ size → n * channels ≤ size
      few_frames n most channels size h b = grind (arith, h, b)

  length-conceal :
      (n : ℕ) (current : List F)
      → (length (conceal floats n current).0 ≡ n * length current)
        × (length (conceal floats n current).1 ≡ length current)
  length-conceal zero current = (omega arith, refl)
  length-conceal (suc n) current =
      let next = decay_frame floats current in
      let (all, last) = length-conceal n next in
      let same : length next ≡ length current = length-map _ current in
      (
        omega (arith, length-append next (conceal floats n next).0, all, ap (λ l. n * l) same),
        last ∙ same,
      )

  -- `frames` of concealment are as many samples as the frames have, and the call does not panic.
  pub synthesize_concealment_frames :
      (most : ℕ) (p : PacketLossConcealer F) (frames : ℕ)
      → IsValid most p
      → frames * most < max_floats
      → (out : List F) × (p' : PacketLossConcealer F) × (synthesize_concealment floats p frames
          ≡ some (out, p'))
        × (out ≡ (conceal floats frames p.last_samples).0)
        × (length out ≡ frames * p.channel_count)
        × IsValid most p'
  unfolding synthesize_concealment
  synthesize_concealment_frames most p frames v small =
      let room : ltb (frames * p.channel_count) max_floats ≡ true =
        ltb_true (frames * p.channel_count)
          (fewer frames p.channel_count most v.few_channels small) in
      let e : (length p.last_samples == p.channel_count) ≡ true =
        (==_iff (length p.last_samples) p.channel_count).1 v.whole_frame in
      let (all, last) = length-conceal frames p.last_samples in
      let fits : (length p.last_samples == length (conceal floats frames p.last_samples).1) ≡ true =
        (==_iff (length p.last_samples) (length (conceal floats frames p.last_samples).1)).1
          (sym last) in
      (
        (conceal floats frames p.last_samples).0,
        record p { last_samples = (conceal floats frames p.last_samples).1; in_loss_state = true },
        rw (room, e, fits) refl,
        refl,
        all ∙ ap (λ l. frames * l) v.whole_frame,
        record {
          whole_frame = last ∙ v.whole_frame;
          some_channel = v.some_channel;
          few_channels = v.few_channels;
        },
      )
    where
      fewer : (n k most : ℕ) → k ≤ most → n * most < max_floats → n * k < max_floats
      fewer n k most h b = grind (arith, h, b)

      ltb_true : (n : ℕ) → n < max_floats → ltb n max_floats ≡ true
      ltb_true n h = ground arith

  pub new-IsValid :
      (most channels : ℕ)
      → 1 ≤ most
      → most < max_floats
      → channels ≤ most
      → (p : PacketLossConcealer F) × (new_concealer floats channels ≡ some p) × IsValid most p
  new-IsValid most channels some_most fits few =
      let room : ltb (max channels 1) max_floats ≡ true = ground arith in
      (
        record {
          last_samples = repeat (max channels 1) floats.silence;
          channel_count = max channels 1;
          in_loss_state = false;
        },
        rw room refl,
        record {
          whole_frame = length-repeat (max channels 1) floats.silence;
          some_channel = omega arith;
          few_channels = omega arith;
        },
      )

  pub set_channel_count-IsValid :
      (most : ℕ) (p : PacketLossConcealer F) (channels : ℕ)
      → most < max_floats
      → channels ≤ most
      → IsValid most p
      → (p' : PacketLossConcealer F) × (set_channel_count floats p channels ≡ some p')
        × IsValid most p'
  set_channel_count-IsValid most p channels fits few v =
      elim (Bool-cases (p.channel_count == max channels 1)) [
        | inl e ↦ (p, rw e refl, v)
        | inr e ↦
            let (p', made, v') =
              new-IsValid most channels (omega (arith, v.some_channel, v.few_channels)) fits few in
            (p', rw e made, v')
      ]
