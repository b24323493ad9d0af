-- ===== src/Gateway/Tests.antt =====
-- Runs of the web gateway: sessions, logins, client slots, and a request in chunks.
use open_audio.Common.{ℕ, ◌≤◌, ◌≡◌, refl, arith, true, false}
use open_audio.Common.{Option, none, some, ◌&&◌, List, [], ◌∷◌, ◌++◌}
use open_audio.Common.Outcome.{ok}
use open_audio.Common.Chars.{chars}
use open_audio.Common.HashMap.{text_key, get, same_text}
use open_audio.Gateway.{
  Text, password_protected, GatewayState, login_is_blocked, hex_text, reserve_client_slot,
  drop_client_slot,
}
use open_audio.Gateway.Handlers.{Verifier, HttpRequest, logged_in, handle_login}
use open_audio.Gateway.Cookies.{cookie_name, cookie_value}
use open_audio.Gateway.Issued.{
  SessionCall, creates, removes, asks, issued, valid, done, calls, spec_calls,
}
use open_audio.Gateway.Sessions.{sessions_refine}
use open_audio.Gateway.Guards.{Login, wrong, refused, admitted, counting, verdicts, spec_verdicts}
use open_audio.Gateway.Lockout.{logins_refine}
use open_audio.Gateway.LoginFlow.{OpensUntil, login_opens_session}
use open_audio.Gateway.Slots.{Reached, starts, connects, ends, CountsClients, clients_within_limit}
use open_audio.Gateway.Http.{
  ready, interrupted, Head, Parsed, partial, complete, HeadReader, RequestHead, read_head, finished,
  header_loop, body_loop, read_http_request,
}
use open_audio.Gateway.Requests.{IsStable, request_in, read_http_request_whole}
use open_audio.Gateway.Arrival.{HeadIn, Delivers, request_arrives}

abbrev hash : Text
hash = chars "hash"

-- Sessions of 100.
abbrev gateway : GatewayState
gateway = record {
  access = password_protected hash;
  sessions = [];
  sessions_poisoned = false;
  login_attempts = [];
  attempts_poisoned = false;
  active_clients = 0;
  max_clients = 2;
  session_duration = 100;
}

abbrev token : Text
token = hex_text (1 ∷ 255 ∷ [])

abbrev session_run : List (ℕ × SessionCall)
session_run =
    (0, creates (1 ∷ 255 ∷ []))
    ∷ (99, asks (some token))
    ∷ (100, asks (some token))
    ∷ (100, asks none)
    ∷ (120, creates (1 ∷ 255 ∷ []))
    ∷ (130, removes (some token))
    ∷ (140, asks (some token))
    ∷ []

sessions_refine_example :
    calls gateway session_run ≡ spec_calls 100 (λ t. get t gateway.sessions) session_run
sessions_refine_example = sessions_refine 100 gateway session_run refl refl refl tt (
  omega arith,
  (omega arith, (omega arith, (omega arith, (omega arith, (omega arith, (omega arith, tt)))))),
)

session_run_answers :
    spec_calls 100 (λ t. none) session_run
    ≡ issued (some token)
      ∷ valid true
      ∷ valid false
      ∷ valid false
      ∷ issued (some token)
      ∷ done
      ∷ valid false
      ∷ []
session_run_answers = refl

abbrev verifier : Verifier
verifier password_hash password =
    same_text password_hash hash && same_text password (chars "secret")

-- The body is the password.
abbrev as_login : List ℕ → Option Text
as_login body = some body

abbrev attempt : ℕ → ℕ → Text → Login
attempt now ip body = record { now = now; ip = ip; random = 7 ∷ []; body = body }

abbrev login_run : List Login
login_run =
    attempt 0 9 (chars "a")
    ∷ attempt 1 9 (chars "b")
    ∷ attempt 2 9 (chars "c")
    ∷ attempt 3 9 (chars "d")
    ∷ attempt 4 9 (chars "e")
    ∷ attempt 5 9 (chars "secret")
    ∷ attempt 6 8 (chars "secret")
    ∷ attempt 30_000_000_004 9 (chars "secret")
    ∷ []

logins_refine_example :
    verdicts verifier as_login gateway login_run
    ≡ spec_verdicts verifier as_login hash (λ ip. counting 0) login_run
logins_refine_example = logins_refine verifier as_login hash gateway login_run refl refl refl

login_run_verdicts :
    spec_verdicts verifier as_login hash (λ ip. counting 0) login_run
    ≡ wrong ∷ wrong ∷ wrong ∷ wrong ∷ wrong ∷ refused ∷ admitted ∷ admitted ∷ []
login_run_verdicts = refl

abbrev others : Text
others = chars "theme=dark"

free : (login_is_blocked gateway 10 9).0 ≡ false
unfolding login_is_blocked
free = refl

no_other : cookie_value others cookie_name ≡ none
unfolding cookie_value
no_other = refl

login_opens_session_example :
    let (answer, after) =
      handle_login verifier as_login gateway 10 9 (1 ∷ 255 ∷ []) (chars "secret") in
    (answer ≡ logged_in token 0) × OpensUntil 110 others token after
login_opens_session_example =
    login_opens_session verifier as_login hash (chars "secret") gateway 10 9 1 (255 ∷ [])
      (chars "secret") others (record { guarded = refl; usable = refl; unique = tt })
      (omega arith, (omega arith, tt)) free refl refl no_other

-- Two connections, a third that is refused, and the end of one.
abbrev third : GatewayState
third = (reserve_client_slot (reserve_client_slot (reserve_client_slot gateway).1).1).1

third-Reached : Reached gateway third 2
unfolding reserve_client_slot
third-Reached = connects _ _ (connects _ _ (connects _ _ starts))

clients_within_limit_example : CountsClients 2 (drop_client_slot third) 1
clients_within_limit_example =
    clients_within_limit gateway (drop_client_slot third) 1 refl (omega arith)
      (ends third 1 third-Reached)

-- A head is two bytes here, and announces a body of three.
abbrev small_head : Head
small_head = record {
  method = some (chars "post");
  path = some (chars "/api/login?x");
  headers = (chars "Content-Length", chars " 3") ∷ [];
}

abbrev parse_two : List ℕ → Parsed
parse_two [] = partial
parse_two (a ∷ []) = partial
parse_two (a ∷ b ∷ rest) = complete small_head 2

abbrev two_bytes : HeadReader
two_bytes = record { parse = parse_two; from_utf8 = some }

parse_two-IsStable : IsStable two_bytes
parse_two-IsStable [] more raw n e = absurd (cc)
parse_two-IsStable (a ∷ []) more raw n e = absurd (cc)
parse_two-IsStable (a ∷ b ∷ rest) more raw n e = e

abbrev stream : List ℕ
stream = 1 ∷ 2 ∷ 3 ∷ 4 ∷ 5 ∷ 6 ∷ []

abbrev posted : HttpRequest
posted = record {
  method = chars "POST";
  path = chars "/api/login";
  headers = (chars "content-length", chars "3") ∷ [];
  body = 3 ∷ 4 ∷ 5 ∷ [];
}

read_posted :
    read_http_request two_bytes (ready 0 ∷ interrupted ∷ ready 0 ∷ ready 1 ∷ ready 7 ∷ []) stream
    ≡ finished posted (1 ∷ 2 ∷ 3 ∷ 4 ∷ 5 ∷ []) (6 ∷ []) []
unfolding read_http_request header_loop read_head body_loop
read_posted = refl

read_http_request_whole_example :
    (request_in two_bytes stream ≡ some posted)
    × ((1 ∷ 2 ∷ 3 ∷ 4 ∷ 5 ∷ []) ++ 6 ∷ [] ≡ stream)
    × (5 ≤ 16_384)
read_http_request_whole_example =
    read_http_request_whole two_bytes (ready 0 ∷ interrupted ∷ ready 0 ∷ ready 1 ∷ ready 7 ∷ []) []
      stream (1 ∷ 2 ∷ 3 ∷ 4 ∷ 5 ∷ []) (6 ∷ []) posted parse_two-IsStable read_posted

abbrev small_request : RequestHead
small_request = record {
  method = chars "POST";
  path = chars "/api/login";
  headers = (chars "content-length", chars "3") ∷ [];
  header_length = 2;
  content_length = 3;
}

small_head_read : read_head two_bytes small_head 2 ≡ ok small_request
unfolding read_head
small_head_read = refl

two_bytes-HeadIn : HeadIn two_bytes stream small_head 2
two_bytes-HeadIn [] unread s = refl
two_bytes-HeadIn (a ∷ []) unread s = refl
two_bytes-HeadIn (a ∷ b ∷ rest) unread s = ground arith

request_arrives_example :
    Delivers posted
      (read_http_request two_bytes (ready 0 ∷ ready 0 ∷ ready 0 ∷ ready 0 ∷ ready 0 ∷ []) stream)
request_arrives_example =
    request_arrives two_bytes stream small_head 2 5 small_request
      (ready 0 ∷ ready 0 ∷ ready 0 ∷ ready 0 ∷ ready 0 ∷ []) two_bytes-HeadIn (omega arith)
      small_head_read refl (omega arith) tt (omega arith)
