-- ===== src/Patchbay/Tests.antt =====
-- apps/sender/src/patchbay.rs: a matrix with numbers for texts.
use open_audio.Common.{ℕ, ◌≡◌, ◌==◌, ==_iff, false, not, if◌then◌else◌, [], ◌∷◌}
use open_audio.Patchbay.{PatchbayMatrix, Texts, same_key, is_patched, set_patched, toggle_patch}
use open_audio.Patchbay.Sets.{IsEquality, patches_lem}

abbrev numbers : Texts ℕ
numbers = record { same = λ a b. a == b }

numbers-IsEquality : IsEquality numbers
numbers-IsEquality = record { correct = λ a b. ==_iff a b }

-- Publisher 1 goes to the receivers 5 and 6.
abbrev matrix : PatchbayMatrix ℕ
matrix = record { publishers = []; receivers = []; active_patches = (1, 5) ∷ (1, 6) ∷ [] }

patches_lem_example :
    (is_patched numbers (set_patched numbers matrix 1 5 false) 1 6
      ≡ (if same_key numbers (1, 5) (1, 6) then false else is_patched numbers matrix 1 6))
    × (toggle_patch numbers matrix 1 5 ≡ (
      not (is_patched numbers matrix 1 5),
      set_patched numbers matrix 1 5 (not (is_patched numbers matrix 1 5)),
    ))
patches_lem_example = patches_lem numbers numbers-IsEquality matrix 1 5 1 6 false
