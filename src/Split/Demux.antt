-- ===== src/Split/Demux.antt =====
-- Channels taken apart by crates/audio-core/src/split.rs.
use open_audio.Common.{
  ℕ, zero, suc, ◌+◌, ◌*◌, ◌≤◌, ◌<◌, ◌≡◌, refl, ap, ◌∙◌, arith, List, [], ◌∷◌, length, get_or, All,
}
use open_audio.Common.Bytes.{IsU32, f32_from_le_bytes, f32_digits}
use open_audio.Protocol.Encode.{f32_bytes}
use open_audio.Split.{sample_at, channel_from, channels_from}

behind_four :
    (a b c d : ℕ) (xs : List ℕ) (n k : ℕ)
    → n ≡ suc (suc (suc (suc k)))
    → get_or (a ∷ b ∷ c ∷ d ∷ xs) n 0 ≡ get_or xs k 0
behind_four a b c d xs n k e = ap (λ m. get_or (a ∷ b ∷ c ∷ d ∷ xs) m 0) e

-- The sample at a position of the bytes of samples.
pub sample_at-f32_bytes :
    (samples : List ℕ) (i : ℕ)
    → All IsU32 samples
    → i < length samples
    → sample_at (f32_bytes samples) (i * 4) ≡ get_or samples i 0
sample_at-f32_bytes [] i u h = absurd (omega arith)
sample_at-f32_bytes (s ∷ ss) zero (u, us) h = f32_digits s u
sample_at-f32_bytes (s ∷ ss) (suc i) (u, us) h =
    let at : ℕ → ℕ = λ j. get_or (f32_bytes (s ∷ ss)) (suc i * 4 + j) 0 in
    let to : ℕ → ℕ = λ j. get_or (f32_bytes ss) (i * 4 + j) 0 in
    let first : get_or (f32_bytes (s ∷ ss)) (suc i * 4) 0 ≡ get_or (f32_bytes ss) (i * 4) 0 =
      behind_four _ _ _ _ (f32_bytes ss) (suc i * 4) (i * 4) (omega arith) in
    let shifted : (j : ℕ) → at j ≡ to j =
      λ j. behind_four _ _ _ _ (f32_bytes ss) (suc i * 4 + j) (i * 4 + j) (omega arith) in
    ap (λ x. f32_from_le_bytes x (at 1) (at 2) (at 3)) first
    ∙ ap (λ x. f32_from_le_bytes (get_or (f32_bytes ss) (i * 4) 0) x (at 2) (at 3)) (shifted 1)
    ∙ ap (λ x. f32_from_le_bytes (get_or (f32_bytes ss) (i * 4) 0) (to 1) x (at 3)) (shifted 2)
    ∙ ap (λ x. f32_from_le_bytes (get_or (f32_bytes ss) (i * 4) 0) (to 1) (to 2) x) (shifted 3)
    ∙ sample_at-f32_bytes ss i us (omega arith)

get_or-channel_from :
    (payload : List ℕ) (count channel from n i : ℕ)
    → i < n
    → get_or (channel_from payload count channel from n) i 0
      ≡ sample_at payload ((from + i) * (count * 4) + channel * 4)
get_or-channel_from payload count channel from zero i h = absurd (omega arith)
get_or-channel_from payload count channel from (suc n) zero h =
    let o : from ≡ from + 0 = omega arith in
    ap (λ k. sample_at payload (k * (count * 4) + channel * 4)) o
get_or-channel_from payload count channel from (suc n) (suc i) h =
    let o : from + 1 + i ≡ from + suc i = omega arith in
    get_or-channel_from payload count channel (from + 1) n i (omega arith)
    ∙ ap (λ k. sample_at payload (k * (count * 4) + channel * 4)) o

get_or-channels_from :
    (payload : List ℕ) (count frames from n i : ℕ)
    → i < n
    → get_or (channels_from payload count frames from n) i []
      ≡ channel_from payload count (from + i) 0 frames
get_or-channels_from payload count frames from zero i h = absurd (omega arith)
get_or-channels_from payload count frames from (suc n) zero h =
    let o : from ≡ from + 0 = omega arith in ap (λ k. channel_from payload count k 0 frames) o
get_or-channels_from payload count frames from (suc n) (suc i) h =
    let o : from + 1 + i ≡ from + suc i = omega arith in
    get_or-channels_from payload count frames (from + 1) n i (omega arith)
    ∙ ap (λ k. channel_from payload count k 0 frames) o

length-channel_from :
    (payload : List ℕ) (count channel from n : ℕ)
    → length (channel_from payload count channel from n) ≡ n
length-channel_from payload count channel from zero = refl
length-channel_from payload count channel from (suc n) =
    ap suc (length-channel_from payload count channel (from + 1) n)

-- Every channel has a sample for each frame.
pub length-taken_channel :
    (payload : List ℕ) (count frames ch : ℕ)
    → ch < count
    → length (get_or (channels_from payload count frames 0 count) ch []) ≡ frames
length-taken_channel payload count frames ch h =
    ap length (get_or-channels_from payload count frames 0 count ch h)
    ∙ length-channel_from payload count (0 + ch) 0 frames

-- A channel taken from the bytes of interleaved samples has the sample of each of its frames.
pub channels_from-f32_bytes :
    (samples : List ℕ) (count frames frame channel : ℕ)
    → All IsU32 samples
    → length samples ≡ frames * count
    → frame < frames
    → channel < count
    → get_or (get_or (channels_from (f32_bytes samples) count frames 0 count) channel []) frame 0
      ≡ get_or samples (frame * count + channel) 0
channels_from-f32_bytes samples count frames frame channel u size f c =
    let i = frame * count + channel in
    let o : (0 + frame) * (count * 4) + (0 + channel) * 4 ≡ i * 4 = grind arith in
    let below : frame * count + count ≤ frames * count = grind arith in
    ap (λ l. get_or l frame 0)
      (get_or-channels_from (f32_bytes samples) count frames 0 count channel c)
    ∙ get_or-channel_from (f32_bytes samples) count (0 + channel) 0 frames frame f
    ∙ ap (sample_at (f32_bytes samples)) o
    ∙ sample_at-f32_bytes samples i u (omega (arith, size, below))
