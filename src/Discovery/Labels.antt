-- ===== src/Discovery/Labels.antt =====
-- The channel labels of a stream.
use open_audio.Common.{
  ℕ, zero, suc, ◌+◌, ◌-◌, ◌<◌, ◌≡◌, refl, ap, ◌∙◌, arith, if◌then◌else◌, ltb, true, false,
}
use open_audio.Common.{List, [], ◌∷◌, ◌++◌, length, take, get_or, length-append, length-take}
use open_audio.Discovery.{labels_from, normalize_channel_labels}

module _ {ℓ} {T : Type ℓ} (channel_label : ℕ → T) where
  length-labels_from : (i n : ℕ) → length (labels_from channel_label i n) ≡ n
  length-labels_from i zero = refl
  length-labels_from i (suc n) = omega (arith, length-labels_from (i + 1) n)

  get_or-labels_from :
      (i n j : ℕ) (d : T)
      → j < n
      → get_or (labels_from channel_label i n) j d ≡ channel_label (i + j + 1)
  get_or-labels_from i zero j d h = absurd (omega arith)
  get_or-labels_from i (suc n) zero d h = ap channel_label (omega arith)
  get_or-labels_from i (suc n) (suc j) d h =
      get_or-labels_from (i + 1) n j d (omega arith) ∙ ap channel_label (omega arith)

  labels_kept :
      (i channel_count j : ℕ) (labels : List T) (d : T)
      → j < channel_count
      → get_or
          (take channel_count labels
            ++ labels_from channel_label
                (i + length (take channel_count labels))
                (channel_count - length (take channel_count labels)))
          j
          d
        ≡ (if ltb j (length labels) then get_or labels j d else channel_label (i + j + 1))
  labels_kept i zero j labels d h = absurd (omega arith)
  labels_kept i (suc n) j [] d h =
      let from : i + 0 ≡ i = omega arith in
      let all : suc n - 0 ≡ suc n = omega arith in
      let past : ltb j 0 ≡ false = ground arith in
      rw (from, all, past) (get_or-labels_from i (suc n) j d h)
  labels_kept i (suc n) zero (l ∷ labels) d h =
      let given : ltb 0 (suc (length labels)) ≡ true = ground arith in rw given refl
  labels_kept i (suc n) (suc j) (l ∷ labels) d h =
      let kept = length (take n labels) in
      let from : i + suc kept ≡ i + 1 + kept = omega arith in
      let left : suc n - suc kept ≡ n - kept = omega arith in
      let same : ltb (suc j) (suc (length labels)) ≡ ltb j (length labels) = ground arith in
      let number : i + suc j + 1 ≡ i + 1 + j + 1 = omega arith in
      rw (from, left, same, number) (labels_kept (i + 1) n j labels d (omega arith))

  -- There is one label for each channel: the one that was given at its place, if there is one, and
  -- "Channel n" with the number of the channel otherwise.
  pub normalize_channel_labels_lem :
      (channel_count : ℕ) (labels : List T)
      → (length (normalize_channel_labels channel_label channel_count labels) ≡ channel_count)
        × ((j : ℕ) (d : T)
            → j < channel_count
            → get_or (normalize_channel_labels channel_label channel_count labels) j d
              ≡ (if ltb j (length labels) then get_or labels j d else channel_label (j + 1)))
  unfolding normalize_channel_labels
  normalize_channel_labels_lem channel_count labels =
      let kept = take channel_count labels in
      let from : 0 + length kept ≡ length kept = omega arith in
      (
        omega (
          arith,
          length-append kept
              (labels_from channel_label (length kept) (channel_count - length kept)),
          length-take channel_count labels,
          length-labels_from (length kept) (channel_count - length kept),
        ),
        λ j d h.
            let number : 0 + j + 1 ≡ j + 1 = omega arith in
            rw (from, number) at (labels_kept 0 channel_count j labels d h),
      )
