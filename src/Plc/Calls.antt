-- ===== src/Plc/Calls.antt =====
-- Calls of `PacketLossConcealer` in any order.
use open_audio.Common.{ℕ, ◌*◌, ◌<◌, ◌≤◌, All, ◌≡◌, refl, Option, some, List, [], ◌∷◌}
use open_audio.Common.Try.{◌>>=◌}
use open_audio.Plc.{
  Floats, max_floats, PacketLossConcealer, new_concealer, set_channel_count, process_incoming,
  synthesize_concealment,
}
use open_audio.Plc.Incoming.{process_incoming_frames}
use open_audio.Plc.Frames.{
  IsValid, synthesize_concealment_frames, new-IsValid, set_channel_count-IsValid,
}

pub data Call (F : Type 0) : Type 0 where
  set_channels : ℕ → Call F
  incoming : List F → Call F
  lost : ℕ → Call F

-- The numbers of a call that are small enough, with at most `most` channels.
abbrev pub Fits : {F : Type 0} → ℕ → Call F → Type 0
Fits most (set_channels channels) = channels ≤ most
Fits most (incoming samples) = Unit {0}
Fits most (lost frames) = frames * most < max_floats

module _ {F : Type 0} (floats : Floats F) where
  -- The state after a call, and after several; none where one of them panics.
  abbrev pub call : PacketLossConcealer F → Call F → Option (PacketLossConcealer F)
  call p (set_channels channels) = set_channel_count floats p channels
  call p (incoming samples) = process_incoming floats p samples >>= λ r. some r.1
  call p (lost frames) = synthesize_concealment floats p frames >>= λ r. some r.1

  abbrev pub call_each : PacketLossConcealer F → List (Call F) → Option (PacketLossConcealer F)
  call_each p [] = some p
  call_each p (c ∷ rest) = call p c >>= λ p'. call_each p' rest

  call-IsValid :
      (most : ℕ) (p : PacketLossConcealer F) (c : Call F)
      → most < max_floats
      → Fits most c
      → IsValid floats most p
      → (p' : PacketLossConcealer F) × (call p c ≡ some p') × IsValid floats most p'
  call-IsValid most p (set_channels channels) small few v =
      set_channel_count-IsValid floats most p channels small few v
  call-IsValid most p (incoming samples) small few v =
      let (out, p', e, _, v') = process_incoming_frames floats most p samples v in
      (p', rw e refl, v')
  call-IsValid most p (lost frames) small few v =
      let (out, p', e, _, _, v') = synthesize_concealment_frames floats most p frames v few in
      (p', rw e refl, v')

  call_each-IsValid :
      (most : ℕ) (p : PacketLossConcealer F) (cs : List (Call F))
      → most < max_floats
      → All (Fits most) cs
      → IsValid floats most p
      → (p' : PacketLossConcealer F) × (call_each p cs ≡ some p') × IsValid floats most p'
  call_each-IsValid most p [] small few v = (p, refl, v)
  call_each-IsValid most p (c ∷ rest) small (few, more) v =
      let (p', e, v') = call-IsValid most p c small few v in
      let (p'', e', v'') = call_each-IsValid most p' rest small more v' in (p'', rw e e', v'')

  -- For numbers of channels up to a bound, and losses whose frames of so many channels fit a vector of
  -- floats: a concealer can be made, and no sequence of calls on it panics, whatever the numbers of
  -- samples. No vector gets too large, no index is out of range, and the slices that are copied over
  -- the last frame have its length.
  pub concealment_never_panics :
      (most channels : ℕ) (calls : List (Call F))
      → 1 ≤ most
      → most < max_floats
      → channels ≤ most
      → All (Fits most) calls
      → (made : PacketLossConcealer F) × (p : PacketLossConcealer F) × (new_concealer floats
            channels
          ≡ some made)
        × (call_each made calls ≡ some p)
        × IsValid floats most p
  concealment_never_panics most channels calls some_most small few fits =
      let (made, e, v) = new-IsValid floats most channels some_most small few in
      let (p, e', v') = call_each-IsValid most made calls small fits v in (made, p, e, e', v')
