-- ===== src/Plc/Incoming.antt =====
-- Samples that arrive at the concealment: they stay as many, and the last whole frame is kept.
use open_audio.Common.{ℕ, zero, suc, ◌+◌, ◌-◌, ◌*◌, ◌/◌, ◌≤◌, ◌≡◌, refl, sym, ◌∙◌, arith}
use open_audio.Common.{Bool, true, false, ◌||◌, Bool-cases, inl, inr, ltb, ◌==◌, ==_iff}
use open_audio.Common.{some, List, length, drop, slice, length-take, length-drop}
use native.Mathlib.Nat.{div-add-mod'}
use open_audio.Plc.{Floats, PacketLossConcealer, remember_last, process_samples, process_incoming}
use open_audio.Plc.Frames.{IsValid, length-faded}

-- The last whole frame of the samples has a sample for each channel.
slice_frame :
    {F : Type 0} (samples : List F) (ch total : ℕ)
    → 1 ≤ ch
    → 1 ≤ total
    → total * ch ≤ length samples
    → length (slice samples ((total - 1) * ch) ((total - 1) * ch + ch)) ≡ ch
slice_frame samples ch zero c t h = absurd (omega arith)
slice_frame samples ch (suc n) c t h =
    let less : suc n - 1 ≡ n = omega arith in
    let from = n * ch in
    rw less
      (omega (arith, length-take (from + ch - from) (drop from samples), length-drop from samples))

module _ {F : Type 0} (floats : Floats F) where
  remember_last-IsValid :
      (most : ℕ) (p : PacketLossConcealer F) (samples : List F)
      → IsValid floats most p
      → (p' : PacketLossConcealer F) × (remember_last floats p samples ≡ some p')
        × IsValid floats most p'
  unfolding remember_last
  remember_last-IsValid most p samples v =
      let ch = p.channel_count in
      let total = length samples / ch in
      let offset = (total - 1) * ch in
      let kept = slice samples offset (offset + ch) in
      elim (Bool-cases (ltb 0 total)) [
        | inr e ↦ (p, rw e refl, v)
        | inl e ↦
            let whole : length kept ≡ ch =
              slice_frame samples ch total v.some_channel (ground arith)
                (omega (arith, div-add-mod' (length samples) ch)) in
            let fits : (length p.last_samples == length kept) ≡ true =
              (==_iff (length p.last_samples) (length kept)).1 (v.whole_frame ∙ sym whole) in
            (
              record p { last_samples = kept },
              rw (e, fits) refl,
              record {
                whole_frame = whole;
                some_channel = v.some_channel;
                few_channels = v.few_channels;
              },
            )
      ]

  process_samples-IsValid :
      (most : ℕ) (p : PacketLossConcealer F) (loss : Bool) (samples : List F)
      → IsValid floats most p
      → (out : List F) × (p' : PacketLossConcealer F) × (process_samples floats p loss samples
          ≡ some (out, p'))
        × (length out ≡ length samples)
        × IsValid floats most p'
  process_samples-IsValid most p true samples v =
      let (out, made, size) = length-faded floats p samples in
      let (p', e, v') =
        remember_last-IsValid most (record p { in_loss_state = false }) out
          (record {
            whole_frame = v.whole_frame;
            some_channel = v.some_channel;
            few_channels = v.few_channels;
          }) in
      (out, p', rw made (rw e refl), size, v')
  process_samples-IsValid most p false samples v =
      let (p', e, v') = remember_last-IsValid most p samples v in (samples, p', rw e refl, refl, v')

  -- Samples that arrive stay as many as they are, and the call does not panic.
  pub process_incoming_frames :
      (most : ℕ) (p : PacketLossConcealer F) (samples : List F)
      → IsValid floats most p
      → (out : List F) × (p' : PacketLossConcealer F) × (process_incoming floats p samples
          ≡ some (out, p'))
        × (length out ≡ length samples)
        × IsValid floats most p'
  process_incoming_frames most p samples v =
      elim (Bool-cases (length samples == 0 || p.channel_count == 0)) [
        | inl e ↦ (samples, p, rw e refl, refl, v)
        | inr e ↦
            let (out, p', made, len, v') =
              process_samples-IsValid most p p.in_loss_state samples v in
            (out, p', rw e made, len, v')
      ]
