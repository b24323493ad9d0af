-- ===== src/Gateway/Cookies.antt =====
-- crates/audio-core/src/web_gateway.rs: the session cookie, written by `handle_login` and read by
-- `cookie_value`.
use open_audio.Common.{ℕ, Bool, true, false, not, ◌&&◌, ◌||◌, leb, ◌==◌, if◌then◌else◌}
use open_audio.Common.{Option, none, some, List, [], ◌∷◌}
use open_audio.Common.Chars.{chars}
use open_audio.Common.HashMap.{same_text}
use open_audio.Gateway.{Text}

abbrev pub cookie_name : Text
cookie_name = chars "openaudio_session"

-- `char::is_whitespace`: the characters with the property White_Space.
abbrev pub is_whitespace : ℕ → Bool
is_whitespace c =
    (leb 9 c && leb c 13)
    || c == 32
    || c == 0x85
    || c == 0xA0
    || c == 0x1680
    || (leb 0x2000 c && leb c 0x200A)
    || c == 0x2028
    || c == 0x2029
    || c == 0x202F
    || c == 0x205F
    || c == 0x3000

abbrev pub trim_start : Text → Text
trim_start [] = []
trim_start (c ∷ cs) = let rest = trim_start cs in if is_whitespace c then rest else c ∷ cs

-- A character before a text whose end was trimmed.
abbrev pub keep_char : ℕ → Text → Text
keep_char c [] = if is_whitespace c then [] else c ∷ []
keep_char c (d ∷ ds) = c ∷ d ∷ ds

abbrev pub trim_end : Text → Text
trim_end [] = []
trim_end (c ∷ cs) = keep_char c (trim_end cs)

abbrev pub trim : Text → Text
trim cs = trim_start (trim_end cs)

-- `split_once('=')`
abbrev pub split_once : ℕ → Text → Option (Text × Text)
split_once sep [] = none
split_once sep (c ∷ cs) =
    let rest = split_once sep cs in
    if c == sep
    then some ([], cs)
    else elim rest [ none ↦ none | some (before, after) ↦ some (c ∷ before, after) ]

-- `split(';')`, which gives at least one part.
abbrev pub onto_first : ℕ → List Text → List Text
onto_first c [] = (c ∷ []) ∷ []
onto_first c (part ∷ parts) = (c ∷ part) ∷ parts

abbrev pub split : ℕ → Text → List Text
split sep [] = [] ∷ []
split sep (c ∷ cs) = let rest = split sep cs in if c == sep then [] ∷ rest else onto_first c rest

abbrev pub is_blank : Text → Bool
is_blank [] = true
is_blank (c ∷ cs) = false

abbrev pub named_value : Text → Option (Text × Text) → Option Text
named_value name none = none
named_value name (some (cookie, value)) =
    if same_text cookie name && not (is_blank value) then some value else none

abbrev pub part_value : Text → Text → Option Text
part_value name part = named_value name (split_once b'=' (trim part))

abbrev pub found_or : Option Text → Option Text → Option Text
found_or (some value) later = some value
found_or none later = later

-- `find_map`
abbrev pub find_value : Text → List Text → Option Text
find_value name [] = none
find_value name (part ∷ parts) =
    let later = find_value name parts in found_or (part_value name part) later

unfoldable pub cookie_value : Text → Text → Option Text
cookie_value header name = find_value name (split b';' header)
