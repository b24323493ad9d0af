-- ===== src/Gateway/Http.antt =====
-- crates/audio-core/src/web_gateway.rs: `read_http_request`. The parser of heads (httparse) and the
-- decoding of UTF-8 are parameters; a socket is the bytes that the peer sends before it closes, and
-- the answers of its reads are events.
use open_audio.Common.{
  ℕ, ◌+◌, ◌-◌, ◌*◌, ◌^◌, min, Bool, true, false, ◌&&◌, ltb, leb, ◌==◌, if◌then◌else◌,
}
use open_audio.Common.{
  Option, none, some, List, [], ◌∷◌, ◌++◌, length, take, drop, slice, map, checked_add,
}
use open_audio.Common.Chars.{chars}
use open_audio.Common.HashMap.{HashMap, text_key, same_text, get, insert}
use open_audio.Common.Outcome.{Result, ok, err, ◌>>=◌, ◌>>◌, refuse_if, ok_or}
use open_audio.Gateway.{Text}
use open_audio.Gateway.Cookies.{trim}
use open_audio.Gateway.Handlers.{HttpRequest}

abbrev pub max_http_request_bytes : ℕ
max_http_request_bytes = 16_384

abbrev pub max_http_path_bytes : ℕ
max_http_path_bytes = 2_048

-- The buffer of one read.
abbrev pub chunk_bytes : ℕ
chunk_bytes = 4_096

-- `read`: at most so many bytes plus one, no more than asked for; or one of its errors.
pub data Read : Type 0 where
  ready : ℕ → Read
  interrupted would_block failed : Read

pub data HttpError : Type 0 where
  headers_too_long nothing_sent closed_in_headers closed_in_body read_failed : HttpError
  missing_method missing_path path_too_long header_not_utf8 bad_content_length : HttpError
  bad_request length_overflow request_too_long : HttpError

-- What `httparse` reads: the method, the path, and the headers with the bytes of their values.
pub record Head : Type 0 where
  pub method : Option Text
  pub path : Option Text
  pub headers : List (Text × List ℕ)

pub data Parsed : Type 0 where
  partial malformed_head : Parsed
  complete : Head → ℕ → Parsed

pub record HeadReader : Type 0 where
  pub parse : List ℕ → Parsed
  pub from_utf8 : List ℕ → Option Text

abbrev pub to_ascii_uppercase : ℕ → ℕ
to_ascii_uppercase c = if leb b'a' c && leb c b'z' then c - 32 else c

abbrev pub to_ascii_lowercase : ℕ → ℕ
to_ascii_lowercase c = if leb b'A' c && leb c b'Z' then c + 32 else c

-- `split('?').next()`
abbrev pub before_query : Text → Text
before_query [] = []
before_query (c ∷ cs) = let rest = before_query cs in if c == b'?' then [] else c ∷ rest

-- `char::len_utf8` and `str::len`.
abbrev pub utf8_width : ℕ → ℕ
utf8_width c = if ltb c 0x80 then 1 else if ltb c 0x800 then 2 else if ltb c 0x1_0000 then 3 else 4

abbrev pub utf8_length : Text → ℕ
utf8_length [] = 0
utf8_length (c ∷ cs) = utf8_width c + utf8_length cs

-- `parse::<usize>`: digits, after a plus or none, of a number below 2^64.
abbrev pub parse_digits : ℕ → Text → Option ℕ
parse_digits n [] = some n
parse_digits n (c ∷ cs) =
    let rest = parse_digits (n * 10 + (c - 48)) cs in
    if leb 48 c && leb c 57 && ltb (n * 10 + (c - 48)) (2 ^ 64) then rest else none

abbrev pub parse_number : Text → Option ℕ
parse_number [] = none
parse_number (c ∷ cs) = parse_digits 0 (c ∷ cs)

abbrev pub parse_usize : Text → Option ℕ
parse_usize [] = none
parse_usize (c ∷ cs) = if c == b'+' then parse_number cs else parse_number (c ∷ cs)

-- `and_modify(..).or_insert(..)`
abbrev pub joined : Text → Option Text → Text
joined value none = value
joined value (some existing) = existing ++ chars ", " ++ value

abbrev pub add_header : Text → Text → HashMap Text Text → HashMap Text Text
add_header name value headers = insert name (joined value (get name headers)) headers

-- The loop over the headers, from the headers and the content length so far.
abbrev pub length_of : Text → Text → ℕ → Result HttpError ℕ
length_of name value content_length =
    if same_text name (chars "content-length")
    then ok_or (parse_usize value) bad_content_length
    else ok content_length

abbrev pub read_headers :
    HeadReader
    → List (Text × List ℕ)
    → HashMap Text Text
    → ℕ
    → Result HttpError (HashMap Text Text × ℕ)
read_headers reader [] headers content_length = ok (headers, content_length)
read_headers reader ((raw_name, bytes) ∷ rest) headers content_length = do
  let name = map to_ascii_lowercase (trim raw_name)
  raw_value ← ok_or (reader.from_utf8 bytes) header_not_utf8
  let value = trim raw_value
  length_now ← length_of name value content_length
  read_headers reader rest (add_header name value headers) length_now

-- What the rest of `read_http_request` needs of a complete head.
pub record RequestHead : Type 0 where
  pub method : Text
  pub path : Text
  pub headers : HashMap Text Text
  pub header_length : ℕ
  pub content_length : ℕ

unfoldable pub read_head : HeadReader → Head → ℕ → Result HttpError RequestHead
read_head reader head header_length = do
  method ← ok_or head.method missing_method
  raw_path ← ok_or head.path missing_path
  let path = before_query raw_path
  refuse_if (ltb max_http_path_bytes (utf8_length path)) path_too_long
  (headers, content_length) ← read_headers reader head.headers [] 0
  ok (record {
    method = map to_ascii_uppercase method;
    path = path;
    headers = headers;
    header_length = header_length;
    content_length = content_length;
  })

-- The first loop: with the reads that are to come, the bytes read and the bytes that are not.
-- `waiting` is the loop still reading when the events are over.
pub data Progress {ℓ} (A : Type ℓ) : Type ℓ where
  waiting : Progress A
  stopped : HttpError → Progress A
  finished : A → List ℕ → List ℕ → List Read → Progress A

abbrev pub read_size : ℕ → ℕ
read_size remaining = min remaining chunk_bytes

abbrev pub end_of_stream : List ℕ → HttpError
end_of_stream [] = nothing_sent
end_of_stream (b ∷ bs) = closed_in_headers

abbrev pub read_so_far :
    List ℕ → List ℕ → List Read → Result HttpError RequestHead → Progress RequestHead
read_so_far bytes unread reads (ok head) = finished head bytes unread reads
read_so_far bytes unread reads (err e) = stopped e

abbrev pub parsed_head :
    HeadReader → Parsed → List ℕ → List ℕ → List Read → Progress RequestHead → Progress RequestHead
parsed_head reader partial bytes unread reads further = further
parsed_head reader malformed_head bytes unread reads further = stopped bad_request
parsed_head reader (complete head header_length) bytes unread reads further =
    read_so_far bytes unread reads (read_head reader head header_length)

abbrev pub is_end : List ℕ → Bool
is_end [] = true
is_end (b ∷ bs) = false

unfoldable pub header_loop : HeadReader → List Read → List ℕ → List ℕ → Progress RequestHead
header_loop reader [] bytes unread =
    if leb max_http_request_bytes (length bytes) then stopped headers_too_long else waiting
header_loop reader (interrupted ∷ reads) bytes unread =
    let further = header_loop reader reads bytes unread in
    if leb max_http_request_bytes (length bytes) then stopped headers_too_long else further
header_loop reader (would_block ∷ reads) bytes unread =
    let further = header_loop reader reads bytes unread in
    if leb max_http_request_bytes (length bytes) then stopped headers_too_long else further
header_loop reader (failed ∷ reads) bytes unread =
    if leb max_http_request_bytes (length bytes)
    then stopped headers_too_long
    else stopped read_failed
header_loop reader (ready n ∷ reads) bytes unread =
    let read = min (n + 1) (read_size (max_http_request_bytes - length bytes)) in
    let more = bytes ++ take read unread in
    let rest = drop read unread in
    let further = header_loop reader reads more rest in
    if leb max_http_request_bytes (length bytes)
    then stopped headers_too_long
    else if is_end unread
    then stopped (end_of_stream bytes)
    else parsed_head reader (reader.parse more) more rest reads further

-- The second loop: until there are `total_length` bytes. Here `WouldBlock` is an error.
unfoldable pub body_loop : ℕ → List Read → List ℕ → List ℕ → Progress (Unit {0})
body_loop total_length [] bytes unread =
    if ltb (length bytes) total_length then waiting else finished tt bytes unread []
body_loop total_length (interrupted ∷ reads) bytes unread =
    let further = body_loop total_length reads bytes unread in
    if ltb (length bytes) total_length
    then further
    else finished tt bytes unread (interrupted ∷ reads)
body_loop total_length (would_block ∷ reads) bytes unread =
    if ltb (length bytes) total_length
    then stopped read_failed
    else finished tt bytes unread (would_block ∷ reads)
body_loop total_length (failed ∷ reads) bytes unread =
    if ltb (length bytes) total_length
    then stopped read_failed
    else finished tt bytes unread (failed ∷ reads)
body_loop total_length (ready n ∷ reads) bytes unread =
    let read = min (n + 1) (read_size (total_length - length bytes)) in
    let further = body_loop total_length reads (bytes ++ take read unread) (drop read unread) in
    if ltb (length bytes) total_length
    then if is_end unread then stopped closed_in_body else further
    else finished tt bytes unread (ready n ∷ reads)

abbrev pub total_of : RequestHead → Result HttpError ℕ
total_of head = do
  total_length ← ok_or (checked_add head.header_length head.content_length) length_overflow
  refuse_if (ltb max_http_request_bytes total_length) request_too_long
  ok total_length

abbrev pub request_of : RequestHead → ℕ → Progress (Unit {0}) → Progress HttpRequest
request_of head total_length waiting = waiting
request_of head total_length (stopped e) = stopped e
request_of head total_length (finished u bytes unread reads) =
    finished
      (record {
        method = head.method;
        path = head.path;
        headers = head.headers;
        body = slice bytes head.header_length total_length;
      })
      bytes unread reads

abbrev pub sized_body :
    RequestHead → List ℕ → List ℕ → List Read → Result HttpError ℕ → Progress HttpRequest
sized_body head bytes unread reads (err e) = stopped e
sized_body head bytes unread reads (ok total_length) =
    request_of head total_length (body_loop total_length reads bytes unread)

abbrev pub read_body : Progress RequestHead → Progress HttpRequest
read_body waiting = waiting
read_body (stopped e) = stopped e
read_body (finished head bytes unread reads) = sized_body head bytes unread reads (total_of head)

unfoldable pub read_http_request : HeadReader → List Read → List ℕ → Progress HttpRequest
read_http_request reader reads stream = read_body (header_loop reader reads [] stream)
