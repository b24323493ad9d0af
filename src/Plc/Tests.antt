-- ===== src/Plc/Tests.antt =====
-- crates/network-core/src/plc.rs: two channels, with numbers in place of floats.
use open_audio.Common.{ℕ, ◌^◌, none, ◌*◌, ◌/◌, ◌≡◌, refl, arith, ◌==◌, some, List, [], ◌∷◌}
use open_audio.Plc.{Floats, PacketLossConcealer, new_concealer, conceal}
use open_audio.Plc.Frames.{IsValid}
use open_audio.Plc.Calls.{Call, set_channels, incoming, lost, call_each, concealment_never_panics}

-- Samples fall to a half with each frame, and 0 is silence.
abbrev halving : Floats ℕ
halving = record {
  silence = 0;
  scale = λ s g. s * g;
  gain = λ i n. i;
  decay = λ s. s / 2;
  is_denormal = λ s. s == 0;
}

three_frames : (conceal halving 3 (8 ∷ 6 ∷ [])).0 ≡ 4 ∷ 3 ∷ 2 ∷ 1 ∷ 1 ∷ 0 ∷ []
three_frames = refl

abbrev calls : List (Call ℕ)
calls = set_channels 2 ∷ incoming (8 ∷ 6 ∷ []) ∷ lost 3 ∷ incoming (9 ∷ 9 ∷ 9 ∷ 9 ∷ []) ∷ []

concealment_never_panics_example :
    (made : PacketLossConcealer ℕ) × (p : PacketLossConcealer ℕ) × (new_concealer halving 0
      ≡ some made)
    × (call_each halving made calls ≡ some p)
    × IsValid halving 255 p
concealment_never_panics_example =
    concealment_never_panics halving 255 0 calls (omega arith) (omega arith) (omega arith)
      (omega arith, (tt, (omega arith, (tt, tt))))

too_many_channels : new_concealer halving (2 ^ 61) ≡ none
too_many_channels = refl
