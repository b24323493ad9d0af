-- ===== src/Protocol/Budget.antt =====
-- The frame budget of a packet and the table of sample rates.
use open_audio.Common.{ℕ, ◌+◌, ◌*◌, ◌/◌, ◌≤◌, ◌<◌, ◌≡◌, ◌≢◌, ◌↔◌, arith}
use native.Mathlib.Nat.{div-add-mod, mod-lt}
use open_audio.Common.Outcome.{ok}
use open_audio.Protocol.{max_float32_frames_per_packet, sample_rate_to_code, code_to_sample_rate}

pub div_bounds : (n b : ℕ) → 1 ≤ b → (n / b * b ≤ n) × (n < (n / b + 1) * b)
div_bounds n b h = (omega (arith, div-add-mod n b), omega (arith, div-add-mod n b, mod-lt n h))

frames_quotient :
    (channels frames : ℕ)
    → max_float32_frames_per_packet channels ≡ ok frames
    → (1 ≤ channels) × (1 ≤ frames) × (frames ≡ 1168 / (channels * 4))
unfolding max_float32_frames_per_packet
frames_quotient channels frames h = ground arith

-- A budget is at least one frame, a packet with that many frames fits the 1200 bytes of a safe
-- datagram, and with one frame more it would not.
pub max_frames_budget :
    (channels frames : ℕ)
    → max_float32_frames_per_packet channels ≡ ok frames
    → (1 ≤ frames)
      × (32 + frames * (channels * 4) ≤ 1200)
      × (1200 < 32 + (frames + 1) * (channels * 4))
max_frames_budget channels frames h =
    let (c1, f1, e) = frames_quotient channels frames h in
    let (lo, hi) = div_bounds 1168 (channels * 4) (omega arith) in
    (f1, rw e (omega arith), rw e (omega arith))

budget_channels :
    (channels frames : ℕ) → 1 ≤ frames → 32 + frames * (channels * 4) ≤ 1200 → channels ≤ 292
budget_channels channels frames f1 fits = grind arith

-- There is a budget exactly for 1 to 292 channels. For any other number the result is an error.
pub max_frames_defined :
    (channels : ℕ)
    → ((frames : ℕ) × (max_float32_frames_per_packet channels ≡ ok frames))
      ↔ ((1 ≤ channels) × (channels ≤ 292))
unfolding max_float32_frames_per_packet
max_frames_defined channels = (
  λ (frames, e).
      let (c1, _, _) = frames_quotient channels frames e in
      let (f1, fits, _) = max_frames_budget channels frames e in
      (c1, budget_channels channels frames f1 fits),
  λ (lo, hi). (1168 / (channels * 4), ground arith),
)

-- Reading a code back gives the rate, for every rate that has a code, and every code of the table
-- is one of its rate; a rate without a code has the code 0, which has no rate.
pub rate_code :
    (rate code : ℕ)
    → code ≢ 0
    → (sample_rate_to_code rate ≡ code) ↔ ((code_to_sample_rate code ≡ rate) × (rate ≢ 0))
unfolding sample_rate_to_code code_to_sample_rate
rate_code rate code h = (ground arith, ground arith)

pub sample_rate_to_code-lt : (rate : ℕ) → sample_rate_to_code rate ≤ 10
unfolding sample_rate_to_code
sample_rate_to_code-lt rate = ground arith

pub code-rate :
    (rate : ℕ)
    → sample_rate_to_code rate ≢ 0
    → code_to_sample_rate (sample_rate_to_code rate) ≡ rate
unfolding sample_rate_to_code code_to_sample_rate
code-rate rate h = ground arith

pub code-rate_ne :
    (rate : ℕ) → sample_rate_to_code rate ≢ 0 → code_to_sample_rate (sample_rate_to_code rate) ≢ 0
unfolding sample_rate_to_code code_to_sample_rate
code-rate_ne rate h = ground arith
