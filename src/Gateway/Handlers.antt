-- ===== src/Gateway/Handlers.antt =====
-- crates/audio-core/src/web_gateway.rs: the handlers of the HTTP requests. What is written to the
-- connection is a value of `Response`; the JSON of a login and the check of a password against its
-- hash are arguments.
use Prim.Native.String.{String}
use open_audio.Common.{ℕ, ◌/◌, Bool, true, false, ◌&&◌, ◌||◌, if◌then◌else◌}
use open_audio.Common.{Option, none, some, List, [], ◌∷◌}
use open_audio.Common.Chars.{chars}
use open_audio.Common.HashMap.{HashMap, text_key, same_text, get}
use open_audio.Gateway.{
  Text, RuntimeAccess, open_lan, password_protected, GatewayState, is_protected, is_session_valid,
  create_session, remove_session, login_is_blocked, record_login_failure, clear_login_failures,
}
use open_audio.Gateway.Cookies.{cookie_value, cookie_name}
use open_audio.Discovery.Directory.{Directory}

-- The fields of `StreamInfo`.
pub record StreamInfo : Type 0 where
  pub node_id : Text
  pub node_name : Text
  pub stream_id : ℕ
  pub stream_name : Text
  pub ip : Text
  pub channel_count : ℕ

-- The answers of the handlers: the pages, the two fields of `AuthenticationStatus`, the streams, and
-- the errors. A `Set-Cookie` header has the token and `Max-Age`.
pub data Response : Type 0 where
  player_page publish_page no_icon not_found : Response
  status : Bool → Bool → Response
  too_many_attempts invalid_login wrong_password no_session : Response
  logged_in : Text → ℕ → Response
  logged_out : Response
  authentication_required : Response
  streams : List StreamInfo → Response

-- `PasswordHash::new` and `verify_password`: whether a hash is of a password.
abbrev pub Verifier : Type 0
Verifier = Text → Text → Bool

abbrev pub verify_password : Verifier → RuntimeAccess → Text → Bool
verify_password verifies open_lan password = true
verify_password verifies (password_protected password_hash) password =
    verifies password_hash password

abbrev pub handle_authentication_status : GatewayState → ℕ → Option Text → Response × GatewayState
handle_authentication_status state now token =
    let (valid, after) = is_session_valid state now token in
    (status valid (is_protected after), after)

-- `as_secs`
abbrev pub seconds : ℕ → ℕ
seconds duration = duration / 1_000_000_000

abbrev pub session_answer : ℕ → Option Text → Response
session_answer duration none = no_session
session_answer duration (some token) = logged_in token (seconds duration)

-- A login that the verification let through.
abbrev pub admit_client : GatewayState → ℕ → ℕ → List ℕ → Response × GatewayState
admit_client state now ip random =
    let (token, after) = create_session (clear_login_failures state ip) now random in
    (session_answer after.session_duration token, after)

abbrev pub check_login :
    Verifier → GatewayState → ℕ → ℕ → List ℕ → Option Text → Response × GatewayState
check_login verifies state now ip random none = (invalid_login, state)
check_login verifies state now ip random (some password) =
    if verify_password verifies state.access password
    then admit_client state now ip random
    else (wrong_password, record_login_failure state now ip)

-- `as_login` reads the password out of the body. One time stands for the calls of the clock.
unfoldable pub handle_login :
    Verifier
    → (List ℕ → Option Text)
    → GatewayState
    → ℕ
    → ℕ
    → List ℕ
    → List ℕ
    → Response × GatewayState
handle_login verifies as_login state now ip random body =
    let (blocked, after) = login_is_blocked state now ip in
    if is_protected state
    then if blocked
      then (too_many_attempts, after)
      else check_login verifies after now ip random (as_login body)
    else (status true false, state)

unfoldable pub handle_logout : GatewayState → Option Text → Response × GatewayState
handle_logout state token = (logged_out, remove_session state token)

abbrev pub stream_infos : Directory Text → List StreamInfo
stream_infos [] = []
stream_infos ((id, node) ∷ rest) =
    record {
      node_id = node.node_id;
      node_name = node.node_name;
      stream_id = node.stream_id;
      stream_name = node.stream_name;
      ip = node.ip;
      channel_count = node.channel_count;
    }
    ∷ stream_infos rest

-- `none` stands for a poisoned lock of the directory.
abbrev pub listed : Option (Directory Text) → List StreamInfo
listed none = []
listed (some directory) = stream_infos directory

unfoldable pub handle_stream_list :
    Option (Directory Text) → GatewayState → ℕ → Option Text → Response × GatewayState
handle_stream_list directory state now token =
    let (valid, after) = is_session_valid state now token in
    if valid then (streams (listed directory), after) else (authentication_required, after)

pub record HttpRequest : Type 0 where
  pub method : Text
  pub path : Text
  pub headers : HashMap Text Text
  pub body : List ℕ

abbrev pub cookie_in : Option Text → Option Text
cookie_in none = none
cookie_in (some header) = cookie_value header cookie_name

abbrev pub is_route : HttpRequest → String → String → Bool
is_route request method path =
    same_text request.method (chars method) && same_text request.path (chars path)

-- `handle_http_request` after the request was read.
unfoldable pub route :
    Verifier
    → (List ℕ → Option Text)
    → Option (Directory Text)
    → GatewayState
    → ℕ
    → ℕ
    → List ℕ
    → HttpRequest
    → Response × GatewayState
route verifies as_login directory state now ip random request =
    let token = cookie_in (get (chars "cookie") request.headers) in
    if is_route request "GET" "/" || is_route request "GET" "/index.html"
    then (player_page, state)
    else if is_route request "GET" "/publish"
    then (publish_page, state)
    else if is_route request "GET" "/favicon.ico"
    then (no_icon, state)
    else if is_route request "GET" "/api/auth/status"
    then handle_authentication_status state now token
    else if is_route request "POST" "/api/login"
    then handle_login verifies as_login state now ip random request.body
    else if is_route request "POST" "/api/logout"
    then handle_logout state token
    else if is_route request "GET" "/api/streams"
    then handle_stream_list directory state now token
    else (not_found, state)
