-- ===== src/Gateway.antt =====
-- crates/audio-core/src/web_gateway.rs: the state of the web gateway, its sessions, the failed
-- logins of each address, and the places for browser clients. Times are in nanoseconds. The random
-- bytes, the hash of passwords and the clock are arguments.
pub mod Cookies
pub mod Handlers
pub mod Issued
pub mod Sessions
pub mod Guards
pub mod Lockout
pub mod CookieRoundTrip
pub mod LoginFlow
pub mod Slots
pub mod Http
pub mod Chunks
pub mod Requests
pub mod Arrival
mod Tests
use open_audio.Common.{ℕ, ◌+◌, ◌-◌, ◌/◌, ◌%◌, ◌^◌, Bool, true, false, ltb, leb, ◌==◌, if◌then◌else◌}
use open_audio.Common.{Option, none, some, List, [], ◌∷◌, ◌++◌, length}
use open_audio.Common.HashMap.{HashMap, text_key, nat_key, get, insert, remove, retain}
use open_audio.Common.Outcome.{Result, ok, err, ◌>>=◌, ◌>>◌, refuse_if, ok_or}

abbrev pub max_login_failures : ℕ
max_login_failures = 5

-- 30 s
abbrev pub login_lockout_duration : ℕ
login_lockout_duration = 30_000_000_000

abbrev pub max_u32 : ℕ
max_u32 = 4_294_967_295

-- A text is the list of its characters' scalar values.
abbrev pub Text : Type 0
Text = List ℕ

pub data RuntimeAccess : Type 0 where
  open_lan : RuntimeAccess
  password_protected : Text → RuntimeAccess

pub record Session : Type 0 where
  pub expires_at : ℕ

pub record LoginAttempt : Type 0 where
  pub failures : ℕ
  pub blocked_until : Option ℕ

-- The two flags are those of the mutexes, which a panic of a thread that holds one sets.
pub record GatewayState : Type 0 where
  pub access : RuntimeAccess
  pub sessions : HashMap Text Session
  pub sessions_poisoned : Bool
  pub login_attempts : HashMap ℕ LoginAttempt
  pub attempts_poisoned : Bool
  pub active_clients : ℕ
  pub max_clients : ℕ
  pub session_duration : ℕ

pub data GatewayAccess : Type 0 where
  open_access : GatewayAccess
  with_password : Text → GatewayAccess

pub record WebGatewayConfig : Type 0 where
  pub http_port : ℕ
  pub access : GatewayAccess
  pub max_clients : ℕ
  pub session_duration : ℕ

pub data ConfigError : Type 0 where
  last_port no_clients zero_duration short_password unhashed : ConfigError

pub validate_config : WebGatewayConfig → Result ConfigError (Unit {0})
validate_config config = do
  refuse_if (config.http_port == 65535) last_port
  refuse_if (config.max_clients == 0) no_clients
  refuse_if (config.session_duration == 0) zero_duration
  ok tt

-- `hash_password` with its fresh salt is a parameter.
pub create_runtime_access : (Text → Option Text) → GatewayAccess → Result ConfigError RuntimeAccess
create_runtime_access hash_password open_access = ok open_lan
create_runtime_access hash_password (with_password password) = do
  refuse_if (ltb (length password) 8) short_password
  password_hash ← ok_or (hash_password password) unhashed
  ok (password_protected password_hash)

-- The state that `run_web_gateway` begins with.
abbrev pub initial_state : WebGatewayConfig → RuntimeAccess → GatewayState
initial_state config access = record {
  access = access;
  sessions = [];
  sessions_poisoned = false;
  login_attempts = [];
  attempts_poisoned = false;
  active_clients = 0;
  max_clients = config.max_clients;
  session_duration = config.session_duration;
}

pub start_gateway : (Text → Option Text) → WebGatewayConfig → Result ConfigError GatewayState
start_gateway hash_password config = do
  validate_config config
  access ← create_runtime_access hash_password config.access
  ok (initial_state config access)

abbrev pub is_protected_access : RuntimeAccess → Bool
is_protected_access open_lan = false
is_protected_access (password_protected password_hash) = true

abbrev pub is_protected : GatewayState → Bool
is_protected state = is_protected_access state.access

abbrev pub is_current : ℕ → Session → Bool
is_current now session = ltb now session.expires_at

-- `map(..).unwrap_or(false)`
abbrev pub current_in : ℕ → Option Session → Bool
current_in now none = false
current_in now (some session) = is_current now session

-- The answer, and the state with the sessions that were kept.
pub is_session_valid : GatewayState → ℕ → Option Text → Bool × GatewayState
is_session_valid state now none = (if is_protected state then false else true, state)
is_session_valid state now (some token) =
    let live = retain (is_current now) state.sessions in
    if is_protected state
    then if state.sessions_poisoned
      then (false, state)
      else (current_in now (get token live), record state { sessions = live })
    else (true, state)

-- `{byte:02x}`
abbrev pub hex_digit : ℕ → ℕ
hex_digit n = if ltb n 10 then n + 48 else n + 87

abbrev pub hex_text : List ℕ → Text
hex_text [] = []
hex_text (byte ∷ random) = hex_digit (byte / 16) ∷ hex_digit (byte % 16) ∷ hex_text random

-- `random` stands for the 32 bytes of the system's generator. `none` is the error "session store
-- unavailable".
pub create_session : GatewayState → ℕ → List ℕ → Option Text × GatewayState
create_session state now random =
    let session : Session = record { expires_at = now + state.session_duration } in
    let token = hex_text random in
    if state.sessions_poisoned
    then (none, state)
    else (some token, record state { sessions = insert token session state.sessions })

pub remove_session : GatewayState → Option Text → GatewayState
remove_session state none = state
remove_session state (some token) =
    if state.sessions_poisoned
    then state
    else record state { sessions = remove token state.sessions }

pub clear_sessions : GatewayState → GatewayState
clear_sessions state = if state.sessions_poisoned then state else record state { sessions = [] }

abbrev pub unblocked : LoginAttempt
unblocked = record { failures = 0; blocked_until = none }

-- The answer, and the attempt that `get_mut` leaves, if it changes it.
abbrev pub block_state : ℕ → Option ℕ → Bool × Option LoginAttempt
block_state now none = (false, none)
block_state now (some until) = if ltb now until then (true, none) else (false, some unblocked)

abbrev pub attempt_blocked : ℕ → Option LoginAttempt → Bool × Option LoginAttempt
attempt_blocked now none = (false, none)
attempt_blocked now (some attempt) = block_state now attempt.blocked_until

abbrev pub write_attempt : ℕ → GatewayState → Option LoginAttempt → GatewayState
write_attempt ip state none = state
write_attempt ip state (some attempt) = record state {
  login_attempts = insert ip attempt state.login_attempts;
}

pub login_is_blocked : GatewayState → ℕ → ℕ → Bool × GatewayState
login_is_blocked state now ip =
    let (blocked, changed) = attempt_blocked now (get ip state.login_attempts) in
    if state.attempts_poisoned then (true, state) else (blocked, write_attempt ip state changed)

-- `entry(ip).or_default()`
abbrev pub attempt_or_default : Option LoginAttempt → LoginAttempt
attempt_or_default none = unblocked
attempt_or_default (some attempt) = attempt

-- `u32::saturating_add` of one, and the block that the last failure allowed brings.
abbrev pub failed_once_more : ℕ → LoginAttempt → LoginAttempt
failed_once_more now attempt =
    let failures = if ltb attempt.failures max_u32 then attempt.failures + 1 else max_u32 in
    record {
      failures = failures;
      blocked_until =
          if leb max_login_failures failures
          then some (now + login_lockout_duration)
          else attempt.blocked_until;
    }

pub record_login_failure : GatewayState → ℕ → ℕ → GatewayState
record_login_failure state now ip =
    let attempt = attempt_or_default (get ip state.login_attempts) in
    if state.attempts_poisoned then state else record state {
      login_attempts = insert ip (failed_once_more now attempt) state.login_attempts;
    }

pub clear_login_failures : GatewayState → ℕ → GatewayState
clear_login_failures state ip =
    if state.attempts_poisoned
    then state
    else record state { login_attempts = remove ip state.login_attempts }

-- `fetch_update`
pub reserve_client_slot : GatewayState → Bool × GatewayState
reserve_client_slot state =
    if ltb state.active_clients state.max_clients
    then (true, record state { active_clients = state.active_clients + 1 })
    else (false, state)

-- `ClientSlot::drop`: `fetch_sub`, which wraps around.
pub drop_client_slot : GatewayState → GatewayState
drop_client_slot state = record state {
  active_clients = (state.active_clients + 2 ^ 64 - 1) % 2 ^ 64;
}
