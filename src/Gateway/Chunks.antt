-- ===== src/Gateway/Chunks.antt =====
-- Requests read in chunks by the web gateway: what a read leaves, against the stream as a whole.
use open_audio.Common.{ℕ, zero, suc, ◌+◌, ◌-◌, ◌≤◌, ◌≡◌, refl, ap, ◌∙◌, min, ltb, leb, arith}
use open_audio.Common.{
  List, [], ◌∷◌, ◌++◌, length, take, drop, slice, append_assoc, Bool-cases, inl, inr, length-append,
  length-take, length-drop,
}
use open_audio.Common.Outcome.{Result, ok, err}
use open_audio.Gateway.Http.{
  max_http_request_bytes, Read, ready, interrupted, would_block, failed, HttpError, Head, Parsed,
  partial, malformed_head, complete, HeadReader, RequestHead, read_head, Progress, finished,
  read_size, read_so_far, parsed_head, is_end, header_loop, body_loop,
}

pub take-drop {ℓ} : {A : Type ℓ} (n : ℕ) (xs : List A) → take n xs ++ drop n xs ≡ xs
take-drop zero xs = refl
take-drop (suc n) [] = refl
take-drop (suc n) (x ∷ xs) = ap (λ t. x ∷ t) (take-drop n xs)

pub moved {ℓ} :
    {A : Type ℓ} (n : ℕ) (bytes unread : List A)
    → (bytes ++ take n unread) ++ drop n unread ≡ bytes ++ unread
moved n bytes unread =
    append_assoc bytes (take n unread) (drop n unread) ∙ ap (λ t. bytes ++ t) (take-drop n unread)

take-append {ℓ} :
    {A : Type ℓ} (n : ℕ) (xs ys : List A) → n ≤ length xs → take n (xs ++ ys) ≡ take n xs
take-append zero xs ys h = refl
take-append (suc n) [] ys h = absurd (omega arith)
take-append (suc n) (x ∷ xs) ys h = ap (λ t. x ∷ t) (take-append n xs ys (omega arith))

drop-append {ℓ} :
    {A : Type ℓ} (n : ℕ) (xs ys : List A) → n ≤ length xs → drop n (xs ++ ys) ≡ drop n xs ++ ys
drop-append zero xs ys h = refl
drop-append (suc n) [] ys h = absurd (omega arith)
drop-append (suc n) (x ∷ xs) ys h = drop-append n xs ys (omega arith)

pub slice-append {ℓ} :
    {A : Type ℓ} (from to : ℕ) (xs ys : List A)
    → from ≤ to
    → to ≤ length xs
    → slice (xs ++ ys) from to ≡ slice xs from to
slice-append from to xs ys h k =
    rw (drop-append from xs ys (omega arith))
      (take-append (to - from) (drop from xs) ys (omega (arith, length-drop from xs)))

-- Where the first loop ends: at a head that the bytes read hold.
abbrev pub HeadRead : HeadReader → List ℕ → Progress RequestHead → Type 0
HeadRead reader stream (finished head bytes unread reads) =
    (bytes ++ unread ≡ stream)
    × (length bytes ≤ 16_384)
    × ((raw : Head) × (n : ℕ) × (reader.parse bytes ≡ complete raw n)
        × (read_head reader raw n ≡ ok head))
HeadRead reader stream _ = Unit {0}

parsed_head-HeadRead :
    (reader : HeadReader) (stream bytes unread : List ℕ) (reads : List Read) (parsed : Parsed)
    (further : Progress RequestHead)
    → reader.parse bytes ≡ parsed
    → bytes ++ unread ≡ stream
    → length bytes ≤ 16_384
    → HeadRead reader stream further
    → HeadRead reader stream (parsed_head reader parsed bytes unread reads further)
parsed_head-HeadRead reader stream bytes unread reads partial further e s l h = h
parsed_head-HeadRead reader stream bytes unread reads malformed_head further e s l h = tt
parsed_head-HeadRead reader stream bytes unread reads (complete raw n) further e s l h =
    outcome (read_head reader raw n) refl
  where
    outcome :
        (r : Result HttpError RequestHead)
        → read_head reader raw n ≡ r
        → HeadRead reader stream (read_so_far bytes unread reads r)
    outcome (ok head) same = (s, l, (raw, n, e, same))
    outcome (err e) same = tt

pub header_loop-HeadRead :
    (reader : HeadReader) (stream : List ℕ) (reads : List Read) (bytes unread : List ℕ)
    → bytes ++ unread ≡ stream
    → length bytes ≤ 16_384
    → HeadRead reader stream (header_loop reader reads bytes unread)
unfolding header_loop
header_loop-HeadRead reader stream [] bytes unread s l = ground arith
header_loop-HeadRead reader stream (interrupted ∷ reads) bytes unread s l =
    ground (arith, header_loop-HeadRead reader stream reads bytes unread s l)
header_loop-HeadRead reader stream (would_block ∷ reads) bytes unread s l =
    ground (arith, header_loop-HeadRead reader stream reads bytes unread s l)
header_loop-HeadRead reader stream (failed ∷ reads) bytes unread s l = ground arith
header_loop-HeadRead reader stream (ready n ∷ reads) bytes unread s l =
    let read = min (n + 1) (read_size (max_http_request_bytes - length bytes)) in
    let same = moved read bytes unread ∙ s in
    let fits : length (bytes ++ take read unread) ≤ 16_384 =
      omega (arith, length-append bytes (take read unread), length-take read unread) in
    elim (Bool-cases (leb max_http_request_bytes (length bytes))) [
      | inl e ↦ rw e tt
      | inr e ↦ rw e (elim (Bool-cases (is_end unread)) [
        | inl none_left ↦ rw none_left tt
        | inr some_left ↦ rw some_left (
            parsed_head-HeadRead reader stream _ _ reads _ _ refl same fits
              (header_loop-HeadRead reader stream reads _ _ same fits))
      ])
    ]

-- Where the second loop ends: with all the bytes of the request.
abbrev pub BodyRead : List ℕ → ℕ → Progress (Unit {0}) → Type 0
BodyRead stream total_length (finished u bytes unread reads) =
    (bytes ++ unread ≡ stream) × (total_length ≤ length bytes) × (length bytes ≤ 16_384)
BodyRead stream total_length _ = Unit {0}

pub body_loop-BodyRead :
    (stream : List ℕ) (total_length : ℕ) (reads : List Read) (bytes unread : List ℕ)
    → bytes ++ unread ≡ stream
    → length bytes ≤ 16_384
    → total_length ≤ 16_384
    → BodyRead stream total_length (body_loop total_length reads bytes unread)
unfolding body_loop
body_loop-BodyRead stream total_length [] bytes unread s l t = ground arith
body_loop-BodyRead stream total_length (interrupted ∷ reads) bytes unread s l t =
    ground (arith, body_loop-BodyRead stream total_length reads bytes unread s l t)
body_loop-BodyRead stream total_length (would_block ∷ reads) bytes unread s l t = ground arith
body_loop-BodyRead stream total_length (failed ∷ reads) bytes unread s l t = ground arith
body_loop-BodyRead stream total_length (ready n ∷ reads) bytes unread s l t =
    let read = min (n + 1) (read_size (total_length - length bytes)) in
    let fits : length (bytes ++ take read unread) ≤ 16_384 =
      omega (arith, length-append bytes (take read unread), length-take read unread) in
    let further =
      body_loop-BodyRead stream total_length reads _ _ (moved read bytes unread ∙ s) fits t in
    elim (Bool-cases (ltb (length bytes) total_length)) [
      | inl more ↦ rw more (elim (Bool-cases (is_end unread)) [
        | inl none_left ↦ rw none_left tt
        | inr some_left ↦ rw some_left further
      ])
      | inr e ↦ rw e (s, ground arith, l)
    ]
