-- ===== src/Gateway/CookieRoundTrip.antt =====
-- The session cookie of the web gateway read back from a `Cookie` header.
use open_audio.Common.{ℕ, ◌/◌, ◌%◌, ◌<◌, ◌≡◌, refl, sym, ap, ◌∙◌, false, ◌==◌, arith}
use open_audio.Common.{
  none, some, List, [], ◌∷◌, ◌++◌, All, All-append, Bool-cases, Option-cases, inl, inr, if_false,
}
use open_audio.Gateway.{Text, hex_digit, hex_text}
use open_audio.Gateway.Cookies.{
  cookie_name, is_whitespace, trim_start, trim_end, keep_char, split, split_once, named_value,
  part_value, found_or, find_value, cookie_value,
}

-- The pair of a `Cookie` header that a browser makes of `Set-Cookie: openaudio_session=..`.
abbrev pub session_cookie : Text → Text
session_cookie token = cookie_name ++ b'=' ∷ token

split_some : (sep : ℕ) (cs : Text) → (p : Text) × (ps : List Text) × (split sep cs ≡ p ∷ ps)
split_some sep [] = ([], [], refl)
split_some sep (c ∷ cs) =
    let (p, ps, e) = split_some sep cs in
    elim (Bool-cases (c == sep)) [
      | inl same ↦ ([], split sep cs, rw same refl)
      | inr other ↦ (c ∷ p, ps, rw (other, e) refl)
    ]

split-append : (sep : ℕ) (xs ys : Text) → split sep (xs ++ sep ∷ ys) ≡ split sep xs ++ split sep ys
split-append sep [] ys = ground arith
split-append sep (c ∷ cs) ys =
    let (p, ps, e) = split_some sep cs in
    elim (Bool-cases (c == sep)) [
      | inl same ↦ rw (same, split-append sep cs ys) refl
      | inr other ↦ rw (other, split-append sep cs ys, e) refl
    ]

find_value-append :
    (name : Text) (ps qs : List Text)
    → find_value name ps ≡ none
    → find_value name (ps ++ qs) ≡ find_value name qs
find_value-append name [] qs h = refl
find_value-append name (p ∷ ps) qs h = elim (Option-cases (part_value name p)) [
  | inl e ↦
      rw (ap (λ o. found_or o (find_value name (ps ++ qs))) e)
        (find_value-append name ps qs (sym (ap (λ o. found_or o (find_value name ps)) e) ∙ h))
  | inr (v, e) ↦ absurd (cc (h, ap (λ o. found_or o (find_value name ps)) e))
]

-- No character of a text separates cookies or is white.
abbrev IsSolid : Text → Type 0
IsSolid = All (λ c. (c == b';' ≡ false) × (is_whitespace c ≡ false))

split-IsSolid : (cs : Text) → IsSolid cs → split b';' cs ≡ cs ∷ []
split-IsSolid [] h = refl
split-IsSolid (c ∷ cs) ((other, w), h) = rw (other, split-IsSolid cs h) refl

keep_solid : (c : ℕ) (cs : Text) → is_whitespace c ≡ false → keep_char c cs ≡ c ∷ cs
keep_solid c [] w = if_false [] w
keep_solid c (d ∷ ds) w = refl

trim_end-IsSolid : (cs : Text) → IsSolid cs → trim_end cs ≡ cs
trim_end-IsSolid [] h = refl
trim_end-IsSolid (c ∷ cs) ((other, w), h) =
    ap (keep_char c) (trim_end-IsSolid cs h) ∙ keep_solid c cs w

-- The random bytes of a token.
abbrev pub IsBytes : List ℕ → Type 0
IsBytes = All (λ byte. byte < 256)

hex_digit_solid :
    (n : ℕ) → n < 16 → (hex_digit n == b';' ≡ false) × (is_whitespace (hex_digit n) ≡ false)
hex_digit_solid n h = ground arith

hex_text-IsSolid : (random : List ℕ) → IsBytes random → IsSolid (hex_text random)
hex_text-IsSolid [] h = tt
hex_text-IsSolid (byte ∷ random) (b, h) = (
  hex_digit_solid (byte / 16) (omega arith),
  (hex_digit_solid (byte % 16) (omega arith), hex_text-IsSolid random h),
)

session_cookie-IsSolid : (token : Text) → IsSolid token → IsSolid (session_cookie token)
session_cookie-IsSolid token h =
    All-append _ cookie_name (b'=' ∷ token) (ground arith) ((refl, refl), h)

part_value-session_cookie :
    (byte : ℕ) (random : List ℕ)
    → IsBytes (byte ∷ random)
    → part_value cookie_name (b' ' ∷ session_cookie (hex_text (byte ∷ random)))
      ≡ some (hex_text (byte ∷ random))
part_value-session_cookie byte random h =
    let solid =
      session_cookie-IsSolid (hex_text (byte ∷ random)) (hex_text-IsSolid (byte ∷ random) h) in
    let kept = trim_end-IsSolid (session_cookie (hex_text (byte ∷ random))) solid in
    ap (λ t. named_value cookie_name (split_once b'=' (trim_start (keep_char b' ' t)))) kept ∙ refl

-- A `Cookie` header in which the session cookie with the token of some random bytes, at least one,
-- follows cookies among which none counts as a session cookie gives the token back.
pub cookie_value-session_cookie :
    (others : Text) (byte : ℕ) (random : List ℕ)
    → IsBytes (byte ∷ random)
    → cookie_value others cookie_name ≡ none
    → cookie_value (others ++ b';' ∷ b' ' ∷ session_cookie (hex_text (byte ∷ random))) cookie_name
      ≡ some (hex_text (byte ∷ random))
unfolding cookie_value
cookie_value-session_cookie others byte random h n =
    let token = hex_text (byte ∷ random) in
    let solid = session_cookie-IsSolid token (hex_text-IsSolid (byte ∷ random) h) in
    let single = split-IsSolid (session_cookie token) solid in
    rw
      (
        split-append b';' others (b' ' ∷ session_cookie token),
        find_value-append cookie_name _ (split b';' (b' ' ∷ session_cookie token)) n,
      )
      (rw single (rw (part_value-session_cookie byte random h) refl))
