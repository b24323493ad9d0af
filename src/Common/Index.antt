-- ===== src/Common/Index.antt =====
-- Positions in lists of numbers.
use open_audio.Common.{ℕ, zero, suc, ◌+◌, ◌*◌, ◌<◌, ◌≡◌, refl, ap, ◌∙◌, arith}
use open_audio.Common.{List, [], ◌∷◌, ◌++◌, length, get_or, All, append_assoc}

pub get_or-append : (xs ys : List ℕ) (i : ℕ) → i < length xs → get_or (xs ++ ys) i 0 ≡ get_or xs i 0
get_or-append [] ys i h = absurd (omega arith)
get_or-append (x ∷ xs) ys zero h = refl
get_or-append (x ∷ xs) ys (suc i) h = get_or-append xs ys i (omega arith)

pub get_or-append_after :
    (xs ys : List ℕ) (i : ℕ) → get_or (xs ++ ys) (length xs + i) 0 ≡ get_or ys i 0
get_or-append_after [] ys i = let same : 0 + i ≡ i = omega arith in ap (λ n. get_or ys n 0) same
get_or-append_after (x ∷ xs) ys i =
    let same : suc (length xs) + i ≡ suc (length xs + i) = omega arith in
    ap (λ n. get_or (x ∷ xs ++ ys) n 0) same ∙ get_or-append_after xs ys i

-- One list after another.
abbrev pub flatten : List (List ℕ) → List ℕ
flatten [] = []
flatten (xs ∷ xss) = xs ++ flatten xss

-- Position `k * size + i` of lists of one size is position `i` of list `k`.
pub get_or-flatten :
    (size : ℕ) (xss : List (List ℕ)) (rest : List ℕ) (k i : ℕ)
    → All (λ xs. length xs ≡ size) xss
    → k < length xss
    → i < size
    → get_or (flatten xss ++ rest) (k * size + i) 0 ≡ get_or (get_or xss k []) i 0
get_or-flatten size [] rest k i h a b = absurd (omega arith)
get_or-flatten size (xs ∷ xss) rest zero i (e, h) a b =
    let here : 0 * size + i ≡ i = omega arith in
    ap (λ n. get_or (flatten (xs ∷ xss) ++ rest) n 0) here
    ∙ ap (λ l. get_or l i 0) (append_assoc xs (flatten xss) rest)
    ∙ get_or-append xs (flatten xss ++ rest) i (omega (arith, e))
get_or-flatten size (xs ∷ xss) rest (suc k) i (e, h) a b =
    let here : suc k * size + i ≡ length xs + (k * size + i) = omega (arith, e) in
    ap (λ n. get_or (flatten (xs ∷ xss) ++ rest) n 0) here
    ∙ ap (λ l. get_or l (length xs + (k * size + i)) 0) (append_assoc xs (flatten xss) rest)
    ∙ get_or-append_after xs (flatten xss ++ rest) (k * size + i)
    ∙ get_or-flatten size xss rest k i h (omega arith) b
