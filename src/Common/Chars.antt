-- ===== src/Common/Chars.antt =====
-- Literal texts as the lists of their characters' scalar values.
use Prim.Native.Nat.{ℕ}
use Prim.Native.String.{String, [], ◌∷◌}
use Prim.Native.Char.{code}
use mathlib.Core.List.{List, [] as nil, ◌∷◌ as cons}

abbrev pub chars : String → List ℕ
chars [] = nil
chars (c ∷ s) = cons (code c) (chars s)
