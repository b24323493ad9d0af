-- ===== src/Plc.antt =====
-- crates/network-core/src/plc.rs: packet loss concealment. The samples are of a type with the
-- operations on floats that the code uses as parameters. A result none stands for a panic.
pub mod Frames
pub mod Incoming
pub mod Calls
mod Tests
use open_audio.Common.{
  ℕ, zero, suc, ◌+◌, ◌-◌, ◌*◌, ◌/◌, Bool, true, false, ◌||◌, ltb, leb, ◌^◌, ◌==◌, if◌then◌else◌,
}
use open_audio.Common.{
  min, max, Option, none, some, List, [], ◌∷◌, ◌++◌, length, take, drop, slice, map,
}
use open_audio.Common.Try.{◌>>=◌}

-- `silence` is 0.0, `gain i n` is `i as f32 / n as f32`, `decay s` is `s * 0.85`, and `is_denormal s`
-- is `s.abs() < 1e-6`.
pub record Floats (F : Type 0) : Type 0 where
  pub silence : F
  pub scale : F → F → F
  pub gain : ℕ → ℕ → F
  pub decay : F → F
  pub is_denormal : F → Bool

pub record PacketLossConcealer (F : Type 0) : Type 0 where
  pub last_samples : List F
  pub channel_count : ℕ
  pub in_loss_state : Bool

-- The number of floats that no vector reaches.
abbrev pub max_floats : ℕ
max_floats = 2 ^ 61

module _ {F : Type 0} where
  abbrev pub repeat : ℕ → F → List F
  repeat zero s = []
  repeat (suc n) s = s ∷ repeat n s

  -- `vec![s; n]` of floats of four bytes: a vector of 2^63 bytes or more is a capacity overflow.
  abbrev pub filled : ℕ → F → Option (List F)
  filled n s = if ltb n max_floats then some (repeat n s) else none

  -- `copy_from_slice` over `old`: none stands for the panic where the lengths differ.
  abbrev pub copy_from_slice : List F → List F → Option (List F)
  copy_from_slice old new = if length old == length new then some new else none

module _ {F : Type 0} (floats : Floats F) where
  abbrev pub new_concealer : ℕ → Option (PacketLossConcealer F)
  new_concealer channels = filled (max channels 1) floats.silence >>= λ last.
      some (record { last_samples = last; channel_count = max channels 1; in_loss_state = false })

  abbrev pub set_channel_count : PacketLossConcealer F → ℕ → Option (PacketLossConcealer F)
  set_channel_count p channels =
      let ch = max channels 1 in if p.channel_count == ch then some p else new_concealer channels

  -- The loop over frames: `n` are left, from number `frame` of `fade_frames` on. An index past the
  -- samples is a panic.
  pub fade_in : ℕ → ℕ → ℕ → ℕ → List F → Option (List F)
  fade_in channels fade_frames zero frame samples = some samples
  fade_in channels fade_frames (suc n) frame samples =
      let rest = fade_in channels fade_frames n (frame + 1) (drop channels samples) in
      let scaled =
        map (λ s. floats.scale s (floats.gain frame fade_frames)) (take channels samples) in
      if leb channels (length samples) then (rest >>= λ later. some (scaled ++ later)) else none

  abbrev pub faded : PacketLossConcealer F → List F → Option (List F)
  faded p samples =
      let fade_frames = min (length samples / p.channel_count) 32 in
      if ltb 1 fade_frames
      then fade_in p.channel_count fade_frames fade_frames 0 samples
      else some samples

  -- The last frame of the samples becomes the one that the concealment goes on from.
  pub remember_last : PacketLossConcealer F → List F → Option (PacketLossConcealer F)
  remember_last p samples =
      let total_frames = length samples / p.channel_count in
      let offset = (total_frames - 1) * p.channel_count in
      let copied =
        copy_from_slice p.last_samples (slice samples offset (offset + p.channel_count)) in
      if ltb 0 total_frames
      then (copied >>= λ last. some (record p { last_samples = last }))
      else some p

  -- The samples, which the call changes in place, and the state after it.
  abbrev pub process_samples :
      PacketLossConcealer F → Bool → List F → Option (List F × PacketLossConcealer F)
  process_samples p true samples = faded p samples >>= λ out.
      remember_last (record p { in_loss_state = false }) out >>= λ p'. some (out, p')
  process_samples p false samples = remember_last p samples >>= λ p'. some (samples, p')

  abbrev pub process_incoming :
      PacketLossConcealer F → List F → Option (List F × PacketLossConcealer F)
  process_incoming p samples =
      if length samples == 0 || p.channel_count == 0
      then some (samples, p)
      else process_samples p p.in_loss_state samples

  abbrev pub decay_frame : List F → List F
  decay_frame =
      map (λ s. let d = floats.decay s in if floats.is_denormal d then floats.silence else d)

  -- The loop over frames: what it pushes, and the frame that it ends with.
  abbrev pub conceal : ℕ → List F → List F × List F
  conceal zero current = ([], current)
  conceal (suc n) current =
      let next = decay_frame current in let (rest, last) = conceal n next in (next ++ rest, last)

  -- `Vec::with_capacity(frames * channel_count)` is a panic where no vector has that many floats. A
  -- product that wraps around in a machine word asks for fewer, and the pushes panic instead.
  pub synthesize_concealment : PacketLossConcealer F → ℕ → Option (List F × PacketLossConcealer F)
  synthesize_concealment p frames =
      let start =
        if length p.last_samples == p.channel_count
        then some p.last_samples
        else filled p.channel_count floats.silence in
      let concealed = start >>= λ current.
      let (concealment, last) = conceal frames current in
      copy_from_slice p.last_samples last >>= λ copied.
      some (concealment, record p { last_samples = copied; in_loss_state = true }) in
      if ltb (frames * p.channel_count) max_floats then concealed else none
