-- ===== src/Fec/Parity.antt =====
-- The parity of payloads, byte by byte: an abstract description of what the encoder accumulates
-- and of what the decoder computes from it.
use open_audio.Common.{ℕ, zero, suc, ◌<◌, ◌≡◌, refl, ap, max, arith}
use open_audio.Common.{List, [], ◌∷◌, length, get_or}
use open_audio.Common.Xor.{bit_xor, bit_xor_comm, bit_xor_assoc, bit_xor-zero, bit_xor_self}
use open_audio.Fec.{xor_prefix, accumulate, xor_all}

-- The byte at index `i` of each payload, by `^`; a payload that is too short counts as 0 there.
abbrev pub column : List (List ℕ) → ℕ → ℕ
column [] i = 0
column (p ∷ ps) i = bit_xor (get_or p i 0) (column ps i)

zero-bit_xor : (a : ℕ) → bit_xor 0 a ≡ a
zero-bit_xor a = omega (arith, bit_xor_comm 0 a, bit_xor-zero a)

-- Both lists to the end of the longer one.
abbrev merge : List ℕ → List ℕ → List ℕ
merge [] ys = ys
merge (x ∷ xs) [] = x ∷ xs
merge (x ∷ xs) (y ∷ ys) = bit_xor x y ∷ merge xs ys

accumulate-merge : (p q : List ℕ) → accumulate p q ≡ merge p q
accumulate-merge [] [] = refl
accumulate-merge [] (y ∷ ys) = ground arith
accumulate-merge (x ∷ xs) [] = ground arith
accumulate-merge (x ∷ xs) (y ∷ ys) = ground (arith, accumulate-merge xs ys)

get_or-merge :
    (p q : List ℕ) (i : ℕ) → get_or (merge p q) i 0 ≡ bit_xor (get_or p i 0) (get_or q i 0)
get_or-merge [] ys i = ground (arith, zero-bit_xor (get_or ys i 0))
get_or-merge (x ∷ xs) [] i = ground (arith, bit_xor-zero (get_or (x ∷ xs) i 0))
get_or-merge (x ∷ xs) (y ∷ ys) zero = refl
get_or-merge (x ∷ xs) (y ∷ ys) (suc i) = get_or-merge xs ys i

length-merge : (p q : List ℕ) → length (merge p q) ≡ max (length p) (length q)
length-merge [] ys = omega arith
length-merge (x ∷ xs) [] = omega arith
length-merge (x ∷ xs) (y ∷ ys) = omega (arith, length-merge xs ys)

pub get_or-accumulate :
    (p q : List ℕ) (i : ℕ) → get_or (accumulate p q) i 0 ≡ bit_xor (get_or p i 0) (get_or q i 0)
get_or-accumulate p q i = rw (accumulate-merge p q) (get_or-merge p q i)

pub length-accumulate : (p q : List ℕ) → length (accumulate p q) ≡ max (length p) (length q)
length-accumulate p q = rw (accumulate-merge p q) (length-merge p q)

length-xor_prefix : (p q : List ℕ) → length (xor_prefix p q) ≡ length p
length-xor_prefix [] q = refl
length-xor_prefix (x ∷ xs) [] = refl
length-xor_prefix (x ∷ xs) (y ∷ ys) = ap suc (length-xor_prefix xs ys)

get_or-xor_prefix :
    (p q : List ℕ) (i : ℕ)
    → i < length p
    → get_or (xor_prefix p q) i 0 ≡ bit_xor (get_or p i 0) (get_or q i 0)
get_or-xor_prefix [] q i h = absurd (omega arith)
get_or-xor_prefix (x ∷ xs) [] i h = ground (arith, bit_xor-zero (get_or (x ∷ xs) i 0))
get_or-xor_prefix (x ∷ xs) (y ∷ ys) zero h = refl
get_or-xor_prefix (x ∷ xs) (y ∷ ys) (suc i) h = get_or-xor_prefix xs ys i (omega arith)

pub length-xor_all : (p : List ℕ) (ps : List (List ℕ)) → length (xor_all p ps) ≡ length p
length-xor_all p [] = refl
length-xor_all p (q ∷ ps) = omega (arith, length-xor_all (xor_prefix p q) ps, length-xor_prefix p q)

pub get_or-xor_all :
    (p : List ℕ) (ps : List (List ℕ)) (i : ℕ)
    → i < length p
    → get_or (xor_all p ps) i 0 ≡ bit_xor (get_or p i 0) (column ps i)
get_or-xor_all p [] i h = ground (arith, bit_xor-zero (get_or p i 0))
get_or-xor_all p (q ∷ ps) i h = ground (
  arith,
  length-xor_prefix p q,
  get_or-xor_all (xor_prefix p q) ps i,
  get_or-xor_prefix p q i h,
  bit_xor_assoc (get_or p i 0) (get_or q i 0) (column ps i),
)

-- Two lists of one length with the same entries are one list.
pub list_ext :
    (xs ys : List ℕ)
    → length xs ≡ length ys
    → ((i : ℕ) → i < length xs → get_or xs i 0 ≡ get_or ys i 0)
    → xs ≡ ys
list_ext [] [] e h = refl
list_ext [] (y ∷ ys) e h = absurd (omega arith)
list_ext (x ∷ xs) [] e h = absurd (omega arith)
list_ext (x ∷ xs) (y ∷ ys) e h =
    cc (h 0 (omega arith), list_ext xs ys (omega arith) (λ i hi. h (suc i) (omega arith)))

-- A byte that a column contains twice drops out.
pub column_swap : (a b c : ℕ) → bit_xor a (bit_xor b c) ≡ bit_xor b (bit_xor a c)
column_swap a b c = ground (arith, bit_xor_assoc a b c, bit_xor_assoc b a c, bit_xor_comm a b)

pub column_cancel : (a c : ℕ) → bit_xor (bit_xor a c) c ≡ a
column_cancel a c = ground (arith, bit_xor_assoc a c c, bit_xor_self c, bit_xor-zero a)
