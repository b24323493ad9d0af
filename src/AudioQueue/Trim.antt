-- ===== src/AudioQueue/Trim.antt =====
-- `trim_interleaved_queue`.
use native.Mathlib.Nat.{div-add-mod', mod-lt}
use open_audio.Common.{
  ℕ, zero, suc, ◌+◌, ◌-◌, ◌*◌, ◌/◌, ◌%◌, ◌^◌, ◌<◌, ◌≤◌, ◌≡◌, ◌≢◌, ◌⊎◌, refl, arith,
}
use open_audio.Common.{
  false, Bool-cases, inl, inr, ltb, ◌==◌, ==_iff, ==_ne, some, List, length, drop, length-drop,
}
use open_audio.AudioQueue.{saturating_mul, div_ceil, trim_interleaved_queue}

div_ceil_bounds : (n b : ℕ) → 1 ≤ b → (n ≤ div_ceil n b * b) × (div_ceil n b * b < n + b)
div_ceil_bounds n b h =
    let split : n / b * b + n % b ≡ n = div-add-mod' n b in
    let small = mod-lt n h in
    elim (Bool-cases (n % b == 0)) [
      | inl e ↦ rw e (let z = (==_iff (n % b) 0).0 e in (omega arith, omega arith))
      | inr e ↦ rw e (let z = ==_ne (n % b) 0 e in (omega arith, omega arith))
    ]

drops_few :
    (most len k b : ℕ) → most < len → k * b < len - most + b → (k ≡ 0) ⊎ (most < len - (k - 1) * b)
drops_few most len zero b h lt = inl refl
drops_few most len (suc k) b h lt =
    let one_less : suc k - 1 ≡ k = omega arith in inr (rw one_less (omega arith))

-- A queue that is too long for the allowed frames: their number of samples is less than its length,
-- so that no multiplication saturates, and the result is the queue without the samples that are too
-- many, rounded up to whole frames.
trim_excess :
    (queue : List ℕ) (maximum_frames channels k : ℕ)
    → channels ≢ 0
    → maximum_frames * channels < length queue
    → div_ceil (length queue - maximum_frames * channels) channels ≡ k
    → k * channels ≤ length queue
    → length queue < 2 ^ 64
    → trim_interleaved_queue queue maximum_frames channels ≡ some (drop (k * channels) queue)
unfolding trim_interleaved_queue
trim_excess queue maximum_frames channels k c more e fits h =
    let most : saturating_mul maximum_frames channels ≡ maximum_frames * channels = omega arith in
    let dropped : saturating_mul k channels ≡ k * channels = omega arith in
    rw (most, e, dropped) (ground arith)

trim_none :
    (queue : List ℕ) (maximum_frames channels : ℕ)
    → channels ≢ 0
    → length queue ≤ maximum_frames * channels
    → length queue < 2 ^ 64
    → trim_interleaved_queue queue maximum_frames channels ≡ some queue
unfolding trim_interleaved_queue
trim_none queue maximum_frames channels c fits h =
    let most : length queue ≤ saturating_mul maximum_frames channels = omega arith in
    let kept : ltb (saturating_mul maximum_frames channels) (length queue) ≡ false = ground arith in
    rw kept (ground arith)

-- A queue whose length is a machine word, with at least one channel and at least one frame allowed,
-- however many: the oldest whole frames are dropped until no more samples are left than the frames
-- that are allowed have, and fewer would not have been enough. There is no panic.
pub trim_interleaved_queue_keeps :
    (queue : List ℕ) (maximum_frames channels : ℕ)
    → channels ≢ 0
    → maximum_frames ≢ 0
    → length queue < 2 ^ 64
    → (k : ℕ) × (trim_interleaved_queue queue maximum_frames channels
        ≡ some (drop (k * channels) queue))
      × (length (drop (k * channels) queue) ≤ maximum_frames * channels)
      × ((k ≡ 0) ⊎ (maximum_frames * channels < length queue - (k - 1) * channels))
trim_interleaved_queue_keeps queue maximum_frames channels c f h =
    let most = maximum_frames * channels in
    let one_fits : channels ≤ most = grind arith in
    let (enough, least) = div_ceil_bounds (length queue - most) channels (omega arith) in
    let k = div_ceil (length queue - most) channels in
    elim (Bool-cases (ltb most (length queue))) [
      | inl e ↦
          let more : most < length queue = ground arith in
          (
            k,
            trim_excess queue maximum_frames channels k c more refl (omega arith) h,
            omega (arith, length-drop (k * channels) queue),
            drops_few most (length queue) k channels more least,
          )
      | inr e ↦
          let fits : length queue ≤ most = ground arith in
          let nothing : 0 * channels ≡ 0 = omega arith in
          (
            0,
            rw nothing (trim_none queue maximum_frames channels c fits h),
            rw nothing fits,
            inl refl,
          )
    ]
