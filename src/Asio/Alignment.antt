-- ===== src/Asio/Alignment.antt =====
-- The buffer of crates/audio-core/src/asio_subscribe.rs between the network and the driver.
use open_audio.Common.{
  ℕ, zero, suc, ◌+◌, ◌-◌, ◌*◌, ◌≤◌, ◌≡◌, refl, sym, ap, ◌∙◌, ltb, leb, ◌==◌, ◌||◌, ◌&&◌, arith,
}
use open_audio.Common.{
  none, some, List, [], ◌∷◌, ◌++◌, length, take, drop, slice, Bool-cases, Option-cases, inl, inr,
  if_true, length-append, length-drop, length-take, checked_mul, checked_add,
}
use open_audio.Common.Outcome.{Result, ok, err, Result-cases}
use open_audio.Protocol.Parse.{ParsedPacket, get_range}
use open_audio.Asio.{
  AsioError, Correction, keep, skip_frame, repeat_frame, correct_buffer, is_keep,
  apply_clock_correction, trim_frames, f32_samples, validate_packet_payload, packet_samples,
}

-- Whole frames of a number of channels.
abbrev pub IsWhole : ℕ → List ℕ → Type 0
IsWhole channels samples = (frames : ℕ) × (length samples ≡ frames * channels)

drop-IsWhole :
    (channels : ℕ) (xs : List ℕ) → IsWhole channels xs → IsWhole channels (drop channels xs)
drop-IsWhole channels xs (zero, e) = (0, omega (arith, length-drop channels xs, e))
drop-IsWhole channels xs (suc frames, e) =
    let split : suc frames * channels ≡ frames * channels + channels = grind arith in
    (frames, omega (arith, length-drop channels xs, e, split))

pub append-IsWhole :
    (channels : ℕ) (xs ys : List ℕ)
    → IsWhole channels xs
    → IsWhole channels ys
    → IsWhole channels (xs ++ ys)
append-IsWhole channels xs ys (m, e) (n, f) =
    let split : (m + n) * channels ≡ m * channels + n * channels = grind arith in
    (m + n, omega (arith, length-append xs ys, e, f, split))

take-IsWhole :
    (channels : ℕ) (xs : List ℕ) → channels ≤ length xs → IsWhole channels (take channels xs)
take-IsWhole channels xs h = (1, omega (arith, length-take channels xs))

pub trim_frames-IsWhole :
    (fuel limit channels : ℕ) (xs : List ℕ)
    → IsWhole channels xs
    → IsWhole channels (trim_frames fuel limit channels xs)
unfolding trim_frames
trim_frames-IsWhole zero limit channels xs h = h
trim_frames-IsWhole (suc fuel) limit channels xs h = elim (Bool-cases (ltb limit (length xs))) [
  | inl e ↦
      rw e (trim_frames-IsWhole fuel limit channels (drop channels xs) (drop-IsWhole channels xs h))
  | inr e ↦ rw e h
]

-- The fuel is enough: each round drops at least one sample.
pub trim_frames-le :
    (fuel limit channels : ℕ) (xs : List ℕ)
    → length xs ≤ fuel
    → 1 ≤ channels
    → length (trim_frames fuel limit channels xs) ≤ limit
unfolding trim_frames
trim_frames-le zero limit channels xs h c = omega arith
trim_frames-le (suc fuel) limit channels xs h c = elim (Bool-cases (ltb limit (length xs))) [
  | inl e ↦ rw e (
      trim_frames-le fuel limit channels (drop channels xs) (omega (arith, length-drop channels xs))
        c)
  | inr e ↦ rw e (ground (arith, e))
]

correct_buffer-IsWhole :
    (correction : Correction) (channels : ℕ) (xs : List ℕ)
    → IsWhole channels xs
    → IsWhole channels (correct_buffer correction channels xs)
correct_buffer-IsWhole keep channels xs h = h
correct_buffer-IsWhole skip_frame channels xs h = drop-IsWhole channels xs h
correct_buffer-IsWhole repeat_frame channels xs h = elim (Bool-cases (leb channels (length xs))) [
  | inl e ↦ rw e (
      append-IsWhole channels xs (take channels xs) h
        (take-IsWhole channels xs (ground (arith, e))))
  | inr e ↦ rw e h
]

pub apply_clock_correction-IsWhole :
    (xs : List ℕ) (channels : ℕ) (correction : Correction) (now last : ℕ)
    → IsWhole channels xs
    → IsWhole channels (apply_clock_correction xs channels correction now last).0
unfolding apply_clock_correction
apply_clock_correction-IsWhole xs channels correction now last h =
    elim (Bool-cases (channels == 0 || is_keep correction || ltb (now - last) 250_000_000)) [
      | inl e ↦ rw e h
      | inr e ↦ rw e (correct_buffer-IsWhole correction channels xs h)
    ]

length-f32_samples : (n : ℕ) (xs : List ℕ) → length xs ≡ n * 4 → length (f32_samples xs) ≡ n
length-f32_samples zero [] e = refl
length-f32_samples zero (a ∷ xs) e = absurd (omega arith)
length-f32_samples (suc n) (a ∷ b ∷ c ∷ d ∷ xs) e = ap suc (length-f32_samples n xs (omega arith))
length-f32_samples (suc n) [] e = absurd (omega arith)
length-f32_samples (suc n) (a ∷ []) e = absurd (omega arith)
length-f32_samples (suc n) (a ∷ b ∷ []) e = absurd (omega arith)
length-f32_samples (suc n) (a ∷ b ∷ c ∷ []) e = absurd (omega arith)

length-get_range :
    (xs : List ℕ) (from size to : ℕ) (ys : List ℕ)
    → to ≡ from + size
    → get_range xs from to ≡ some ys
    → length ys ≡ size
length-get_range xs from size to ys e got = elim (Bool-cases (leb from to && leb to (length xs))) [
  | inr outside ↦ absurd (ground (arith, got, outside))
  | inl inside ↦
      let size_slice : length (slice xs from to) ≡ size =
        ground (arith, inside, length-take (to - from) (drop from xs), length-drop from xs) in
      ap length (some_inj (sym got ∙ if_true none inside)) ∙ size_slice
]
  where
    some_inj : {a b : List ℕ} → some a ≡ some b → a ≡ b
    some_inj h = ground (arith, h)

samples_or_none : Result AsioError (List ℕ) → List ℕ
samples_or_none (ok samples) = samples
samples_or_none (err e) = []

checked_values :
    (spc channels offset count size to : ℕ)
    → checked_mul spc channels ≡ some count
    → checked_mul count 4 ≡ some size
    → checked_add offset size ≡ some to
    → (count ≡ spc * channels) × (size ≡ count * 4) × (to ≡ offset + size)
checked_values spc channels offset count size to a b c = (ground arith, ground arith, ground arith)

-- The samples of a packet are its frames.
pub packet_samples-IsWhole :
    (packet : List ℕ) (parsed : ParsedPacket) (samples : List ℕ)
    → packet_samples packet parsed ≡ ok samples
    → IsWhole parsed.channel_count samples
unfolding packet_samples samples_or_none
packet_samples-IsWhole packet parsed samples e =
    elim (Result-cases (validate_packet_payload packet parsed)) [
      | inl (x, refused) ↦ absurd (ground (arith, refused))
      | inr (u, checked) ↦
          elim (Option-cases (checked_mul parsed.samples_per_channel parsed.channel_count)) [
            | inl none_count ↦ absurd (ground (arith, checked, none_count))
            | inr (count, counted) ↦ elim (Option-cases (checked_mul count 4)) [
              | inl none_size ↦ absurd (ground (arith, checked, counted, none_size))
              | inr (size, sized) ↦ elim (Option-cases (checked_add parsed.payload_offset size)) [
                | inl none_end ↦ absurd (ground (arith, checked, counted, sized, none_end))
                | inr (to, ended) ↦
                    elim (Option-cases (get_range packet parsed.payload_offset to)) [
                      | inl none_left ↦
                          absurd (ground (arith, checked, counted, sized, ended, none_left))
                      | inr (payload, got) ↦
                          let here : packet_samples packet parsed ≡ ok (f32_samples payload) =
                            rw (checked, counted, sized, ended, got) refl in
                          let (c, s, t) =
                            checked_values parsed.samples_per_channel parsed.channel_count
                              parsed.payload_offset count size to counted sized ended in
                          let whole = length-f32_samples count payload (
                            length-get_range packet parsed.payload_offset size to payload t got
                            ∙ s) in
                          (
                            parsed.samples_per_channel,
                            ap (λ r. length (samples_or_none r)) (sym e ∙ here) ∙ whole ∙ c,
                          )
                    ]
              ]
            ]
          ]
    ]
