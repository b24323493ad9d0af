-- ===== src/Gateway/Requests.antt =====
-- Requests of the web gateway, whatever the chunks in which they arrive.
use mathlib.Core.Path.{subst}
use open_audio.Common.{ℕ, ◌≤◌, ◌≡◌, refl, ap, ◌∙◌, true, leb, if◌then◌else◌, arith}
use open_audio.Common.{Option, none, some, List, [], ◌++◌, length, slice, length-append}
use open_audio.Common.Outcome.{Result, ok, err}
use open_audio.Gateway.Handlers.{HttpRequest}
use open_audio.Gateway.Http.{
  Read, HttpError, Head, Parsed, complete, HeadReader, RequestHead, read_head, Progress, waiting,
  stopped, finished, total_of, request_of, sized_body, read_body, read_http_request,
}
use open_audio.Gateway.Chunks.{
  HeadRead, header_loop-HeadRead, BodyRead, body_loop-BodyRead, slice-append,
}

-- What is relied on of the parser: bytes after a complete head change nothing.
abbrev pub IsStable : HeadReader → Type 0
IsStable reader =
    (bytes more : List ℕ) (raw : Head) (n : ℕ)
    → reader.parse bytes ≡ complete raw n
    → reader.parse (bytes ++ more) ≡ complete raw n

-- The request at the head of a stream that is there as a whole.
abbrev sized_request : List ℕ → RequestHead → Result HttpError ℕ → Option HttpRequest
sized_request stream head (err e) = none
sized_request stream head (ok total_length) =
    if leb total_length (length stream)
    then some (record {
      method = head.method;
      path = head.path;
      headers = head.headers;
      body = slice stream head.header_length total_length;
    })
    else none

abbrev headed_request : List ℕ → Result HttpError RequestHead → Option HttpRequest
headed_request stream (err e) = none
headed_request stream (ok head) = sized_request stream head (total_of head)

abbrev parsed_request : HeadReader → List ℕ → Parsed → Option HttpRequest
parsed_request reader stream (complete raw n) = headed_request stream (read_head reader raw n)
parsed_request reader stream _ = none

abbrev pub request_in : HeadReader → List ℕ → Option HttpRequest
request_in reader stream = parsed_request reader stream (reader.parse stream)

abbrev RequestRead : HeadReader → List ℕ → Progress HttpRequest → Type 0
RequestRead reader stream (finished request bytes unread reads) =
    (request_in reader stream ≡ some request) × (bytes ++ unread ≡ stream) × (length bytes ≤ 16_384)
RequestRead reader stream _ = Unit {0}

pub total_bounds :
    (head : RequestHead) (total_length : ℕ)
    → total_of head ≡ ok total_length
    → (head.header_length ≤ total_length) × (total_length ≤ 16_384)
total_bounds head total_length e = (ground arith, ground arith)

body-RequestRead :
    (reader : HeadReader) (stream : List ℕ) (head : RequestHead) (total_length : ℕ)
    (p : Progress (Unit {0}))
    → request_in reader stream ≡ sized_request stream head (ok total_length)
    → head.header_length ≤ total_length
    → BodyRead stream total_length p
    → RequestRead reader stream (request_of head total_length p)
body-RequestRead reader stream head total_length waiting same h b = tt
body-RequestRead reader stream head total_length (stopped e) same h b = tt
body-RequestRead reader stream head total_length (finished u bytes unread reads) same h (s, t, l) =
    let there : leb total_length (length stream) ≡ true =
      subst (λ xs. leb total_length (length xs) ≡ true) s
        (ground (arith, length-append bytes unread)) in
    let part : slice stream head.header_length total_length
        ≡ slice bytes head.header_length total_length =
      subst
        (λ xs.
          slice xs head.header_length total_length ≡ slice bytes head.header_length total_length)
        s (slice-append head.header_length total_length bytes unread h t) in
    (same ∙ rw (there, part) refl, s, l)

read_body-RequestRead :
    (reader : HeadReader) (stream : List ℕ) (p : Progress RequestHead)
    → IsStable reader
    → HeadRead reader stream p
    → RequestRead reader stream (read_body p)
read_body-RequestRead reader stream waiting stable h = tt
read_body-RequestRead reader stream (stopped e) stable h = tt
read_body-RequestRead reader stream (finished head bytes unread reads) stable
      (s, l, (raw, n, parsed, same)) =
    sized (total_of head) refl
  where
    whole : request_in reader stream ≡ sized_request stream head (total_of head)
    whole =
        ap (parsed_request reader stream)
          (subst (λ xs. reader.parse xs ≡ complete raw n) s (stable bytes unread raw n parsed))
        ∙ ap (headed_request stream) same

    sized :
        (r : Result HttpError ℕ)
        → total_of head ≡ r
        → RequestRead reader stream (sized_body head bytes unread reads r)
    sized (err e) t = tt
    sized (ok total_length) t =
        let (h, few) = total_bounds head total_length t in
        body-RequestRead reader stream head total_length _
          (whole ∙ ap (sized_request stream head) t) h
          (body_loop-BodyRead stream total_length reads bytes unread s l few)

-- With a parser that bytes after a complete head do not disturb, a request that is read, in whatever
-- chunks the bytes arrive and whatever interrupts the reads, is the one at the head of the stream as
-- a whole: of its parsed head, and with a body of exactly the bytes that `Content-Length` announces.
-- At most 16,384 bytes were taken from the stream.
pub read_http_request_whole :
    (reader : HeadReader) (reads rest : List Read) (stream bytes unread : List ℕ)
    (request : HttpRequest)
    → IsStable reader
    → read_http_request reader reads stream ≡ finished request bytes unread rest
    → (request_in reader stream ≡ some request)
      × (bytes ++ unread ≡ stream)
      × (length bytes ≤ 16_384)
unfolding read_http_request
read_http_request_whole reader reads rest stream bytes unread request stable e =
    subst (RequestRead reader stream) e (
      read_body-RequestRead reader stream _ stable
        (header_loop-HeadRead reader stream reads [] stream refl (omega arith)))
