-- ===== src/Gateway/Arrival.antt =====
-- Requests that arrive are read: the loops of the web gateway end after enough reads.
use mathlib.Core.Path.{subst}
use open_audio.Common.{
  ℕ, ◌+◌, ◌-◌, ◌≤◌, ◌<◌, ◌≡◌, refl, sym, ap, ◌∙◌, min, false, ltb, leb, if◌then◌else◌, arith,
}
use open_audio.Common.{
  List, [], ◌∷◌, ◌++◌, length, take, drop, slice, Bool-cases, inl, inr, length-append, length-take,
  if_false, if_true,
}
use open_audio.Common.Outcome.{ok}
use open_audio.Gateway.Handlers.{HttpRequest}
use open_audio.Gateway.Http.{
  max_http_request_bytes, Read, ready, interrupted, would_block, failed, Head, partial, complete,
  HeadReader, RequestHead, read_head, Progress, waiting, stopped, finished, read_size, is_end,
  header_loop, body_loop, total_of, request_of, read_body, read_http_request,
}
use open_audio.Gateway.Chunks.{moved, slice-append, BodyRead, body_loop-BodyRead}
use open_audio.Gateway.Requests.{total_bounds}

-- Reads that deliver bytes.
abbrev pub AllReady : List Read → Type 0
AllReady [] = Unit {0}
AllReady (ready n ∷ reads) = AllReady reads
AllReady (_ ∷ reads) = ⊥

-- What is relied on of the parser for a stream that begins with a head of `n` bytes: it waits for
-- all of them, and for no more.
abbrev pub HeadIn : HeadReader → List ℕ → Head → ℕ → Type 0
HeadIn reader stream raw n =
    (bytes unread : List ℕ)
    → bytes ++ unread ≡ stream
    → reader.parse bytes ≡ (if leb n (length bytes) then complete raw n else partial)

-- A loop that ends with `a`, has not read past the limit, and used at most one read for each byte.
abbrev Ends : {A : Type 0} → A → List ℕ → ℕ → Progress A → Type 0
Ends a stream budget (finished b bytes unread reads) =
    (b ≡ a)
    × (bytes ++ unread ≡ stream)
    × (length bytes ≤ 16_384)
    × AllReady reads
    × (budget ≤ length reads + length bytes)
Ends a stream budget _ = ⊥

some_left : (unread : List ℕ) → 1 ≤ length unread → is_end unread ≡ false
some_left [] h = absurd (omega arith)
some_left (b ∷ bs) h = refl

-- A read of at least one byte, where some are left and wanted.
read_gains :
    (n wanted : ℕ) (bytes unread : List ℕ)
    → 1 ≤ length unread
    → 1 ≤ wanted
    → let more = bytes ++ take (min (n + 1) (read_size wanted)) unread in
      (length bytes + 1 ≤ length more) × (length more ≤ length bytes + wanted)
read_gains n wanted bytes unread h k =
    let read = min (n + 1) (read_size wanted) in
    let added = length-append bytes (take read unread) in
    let taken = length-take read unread in
    (omega (arith, added, taken), omega (arith, added, taken))

header_loop-Ends :
    (reader : HeadReader) (stream : List ℕ) (raw : Head) (n budget : ℕ) (head : RequestHead)
    (reads : List Read) (bytes unread : List ℕ)
    → HeadIn reader stream raw n
    → read_head reader raw n ≡ ok head
    → n ≤ length stream
    → n ≤ 16_384
    → AllReady reads
    → bytes ++ unread ≡ stream
    → length bytes < n
    → n ≤ budget
    → budget ≤ length reads + length bytes
    → Ends head stream budget (header_loop reader reads bytes unread)
unfolding header_loop
header_loop-Ends reader stream raw n budget head [] bytes unread law same in_stream small all s few
      b enough =
    absurd (omega arith)
header_loop-Ends reader stream raw n budget head (interrupted ∷ reads) bytes unread law same
      in_stream small all s few b enough =
    elim all [ ]
header_loop-Ends reader stream raw n budget head (would_block ∷ reads) bytes unread law same
      in_stream small all s few b enough =
    elim all [ ]
header_loop-Ends reader stream raw n budget head (failed ∷ reads) bytes unread law same in_stream
      small all s few b enough =
    elim all [ ]
header_loop-Ends reader stream raw n budget head (ready k ∷ reads) bytes unread law same in_stream
      small all s few b enough =
    let wanted = max_http_request_bytes - length bytes in
    let size = min (k + 1) (read_size wanted) in
    let more = bytes ++ take size unread in
    let left : 1 ≤ length unread =
      subst (λ xs. n ≤ length xs → 1 ≤ length unread) s
        (λ h. omega (arith, length-append bytes unread)) in_stream in
    let (gained, within) = read_gains k wanted bytes unread left (omega arith) in
    let here = moved size bytes unread ∙ s in
    let room : leb max_http_request_bytes (length bytes) ≡ false = ground arith in
    elim (Bool-cases (leb n (length more))) [
      | inl whole ↦
          rw
            (
              room,
              some_left unread left,
              law more (drop size unread) here ∙ if_true partial whole,
              same,
            )
            (refl, here, omega (arith, within), all, omega (arith, gained))
      | inr part ↦
          rw
            (
              room,
              some_left unread left,
              law more (drop size unread) here ∙ if_false (complete raw n) part,
            )
            (header_loop-Ends reader stream raw n budget head reads more (drop size unread) law same
              in_stream small all here (ground arith) b (omega (arith, gained)))
    ]

body_loop-Ends :
    (stream : List ℕ) (total_length budget : ℕ) (reads : List Read) (bytes unread : List ℕ)
    → total_length ≤ length stream
    → total_length ≤ 16_384
    → AllReady reads
    → bytes ++ unread ≡ stream
    → length bytes ≤ 16_384
    → total_length ≤ budget
    → budget ≤ length reads + length bytes
    → Ends tt stream total_length (body_loop total_length reads bytes unread)
unfolding body_loop
body_loop-Ends stream total_length budget [] bytes unread in_stream small all s few b enough =
    let done : ltb (length bytes) total_length ≡ false = ground arith in
    rw done (refl, s, few, tt, omega arith)
body_loop-Ends stream total_length budget (interrupted ∷ reads) bytes unread in_stream small all s
      few b enough =
    elim all [ ]
body_loop-Ends stream total_length budget (would_block ∷ reads) bytes unread in_stream small all s
      few b enough =
    elim all [ ]
body_loop-Ends stream total_length budget (failed ∷ reads) bytes unread in_stream small all s few b
      enough =
    elim all [ ]
body_loop-Ends stream total_length budget (ready k ∷ reads) bytes unread in_stream small all s few b
      enough =
    elim (Bool-cases (ltb (length bytes) total_length)) [
      | inr done ↦ rw done (refl, s, few, all, omega arith)
      | inl more ↦
          let below : length bytes < total_length = ground arith in
          let wanted = total_length - length bytes in
          let size = min (k + 1) (read_size wanted) in
          let left : 1 ≤ length unread =
            subst (λ xs. total_length ≤ length xs → 1 ≤ length unread) s
              (λ h. omega (arith, length-append bytes unread)) in_stream in
          let (gained, within) = read_gains k wanted bytes unread left (omega arith) in
          rw (more, some_left unread left)
            (body_loop-Ends stream total_length budget reads (bytes ++ take size unread)
              (drop size unread) in_stream small all (moved size bytes unread ∙ s)
              (omega (arith, within)) b (omega (arith, gained)))
    ]

read_head_length :
    (reader : HeadReader) (raw : Head) (n : ℕ) (head : RequestHead)
    → read_head reader raw n ≡ ok head
    → head.header_length ≡ n
unfolding read_head
read_head_length reader raw n head e = ground arith

-- The request with a head and the part of a stream that is its body.
abbrev pub request_at : RequestHead → List ℕ → ℕ → ℕ → HttpRequest
request_at head stream from to = record {
  method = head.method;
  path = head.path;
  headers = head.headers;
  body = slice stream from to;
}

abbrev pub Delivers : HttpRequest → Progress HttpRequest → Type 0
Delivers request p =
    (bytes unread : List ℕ) × (rest : List Read) × (p ≡ finished request bytes unread rest)

request_of-Delivers :
    (stream : List ℕ) (head : RequestHead) (total_length : ℕ) (p : Progress (Unit {0}))
    → head.header_length ≤ total_length
    → Ends tt stream total_length p
    → BodyRead stream total_length p
    → Delivers
        (request_at head stream head.header_length total_length)
        (request_of head total_length p)
request_of-Delivers stream head total_length waiting h e b = absurd e
request_of-Delivers stream head total_length (stopped error) h e b = absurd e
request_of-Delivers stream head total_length (finished u bytes unread rest) h e (s, t, l) =
    let part : slice bytes head.header_length total_length
        ≡ slice stream head.header_length total_length =
      sym (slice-append head.header_length total_length bytes unread h t)
      ∙ ap (λ xs. slice xs head.header_length total_length) s in
    (
      bytes,
      unread,
      rest,
      ap
          (λ body.
            finished
              (record {
                method = head.method;
                path = head.path;
                headers = head.headers;
                body = body;
              })
              bytes unread rest)
          part,
    )

read_body-Delivers :
    (stream : List ℕ) (head : RequestHead) (total_length : ℕ) (p : Progress RequestHead)
    → total_of head ≡ ok total_length
    → total_length ≤ length stream
    → Ends head stream total_length p
    → Delivers (request_at head stream head.header_length total_length) (read_body p)
read_body-Delivers stream head total_length waiting sized in_stream e = absurd e
read_body-Delivers stream head total_length (stopped error) sized in_stream e = absurd e
read_body-Delivers stream head total_length (finished got bytes unread rest) sized in_stream
      (same, s, few, all, b) =
    let (h, small) = total_bounds head total_length sized in
    let loop_ends =
      body_loop-Ends stream total_length total_length rest bytes unread in_stream small all s few
        (omega arith) b in
    let body_read = body_loop-BodyRead stream total_length rest bytes unread s few small in
    let (more, left, later, e) =
      request_of-Delivers stream head total_length _ h loop_ends body_read in
    (more, left, later, rw (same, sized) e)

-- A request whose head and length the parser and the limits accept, and which the stream holds, is
-- read from reads that deliver bytes, whatever their sizes, if there are as many of them as the
-- request has bytes: the reader ends with the parsed head and the announced body.
pub request_arrives :
    (reader : HeadReader) (stream : List ℕ) (raw : Head) (n total_length : ℕ) (head : RequestHead)
    (reads : List Read)
    → HeadIn reader stream raw n
    → 1 ≤ n
    → read_head reader raw n ≡ ok head
    → total_of head ≡ ok total_length
    → total_length ≤ length stream
    → AllReady reads
    → total_length ≤ length reads
    → Delivers
        (request_at head stream head.header_length total_length)
        (read_http_request reader reads stream)
unfolding read_http_request
request_arrives reader stream raw n total_length head reads law n1 same sized in_stream all enough =
    let here = read_head_length reader raw n head same in
    let (h, few) = total_bounds head total_length sized in
    let n_few : n ≤ total_length = omega (arith, here) in
    read_body-Delivers stream head total_length _ sized in_stream (
      header_loop-Ends reader stream raw n total_length head reads [] stream law same (omega arith)
        (omega arith) all refl (omega arith) n_few (omega arith))
