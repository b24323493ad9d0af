-- ===== src/Gateway/LoginFlow.antt =====
-- From a login of the web gateway over the cookie to the requests that follow, and a logout.
use open_audio.Common.{ℕ, ◌+◌, ◌≡◌, refl, sym, ap, ◌∙◌, Bool, true, false, ltb, arith}
use open_audio.Common.{Option, none, some, List, ◌∷◌, ◌++◌, Bool-cases, inl, inr, if_true, if_false}
use mathlib.Core.Path.{subst}
use open_audio.Common.HashMap.{
  HashMap, text_key, nat_key, get, remove, retain, IsUnique, get-insert, get-remove, get-retain,
  insert-IsUnique, remove-IsUnique, same_text_refl,
}
use open_audio.Gateway.{
  Text, Session, password_protected, LoginAttempt, GatewayState, is_protected_access, is_current,
  current_in, is_session_valid, hex_text, write_attempt, attempt_blocked, login_is_blocked,
  clear_login_failures,
}
use open_audio.Gateway.Handlers.{
  Verifier, Response, status, too_many_attempts, logged_in, seconds, verify_password, check_login,
  handle_login, handle_logout, cookie_in, admit_client,
}
use open_audio.Gateway.Sessions.{
  create_session_usable, is_session_valid_usable, remove_session_usable,
}
use open_audio.Gateway.Cookies.{cookie_name, cookie_value}
use open_audio.Gateway.CookieRoundTrip.{IsBytes, session_cookie, cookie_value-session_cookie}

-- What the calls on the failed logins leave as it was.
record SameSessions (before after : GatewayState) : Type 0 where
  access : after.access ≡ before.access
  sessions : after.sessions ≡ before.sessions
  poisoned : after.sessions_poisoned ≡ before.sessions_poisoned
  duration : after.session_duration ≡ before.session_duration

same_state : (state : GatewayState) → SameSessions state state
same_state state = record { access = refl; sessions = refl; poisoned = refl; duration = refl }

login_is_blocked-SameSessions :
    (state : GatewayState) (now ip : ℕ) → SameSessions state (login_is_blocked state now ip).1
unfolding login_is_blocked
login_is_blocked-SameSessions state now ip = elim (Bool-cases state.attempts_poisoned) [
  | inl e ↦ rw (if_true _ e) (same_state state)
  | inr e ↦
      rw (if_false {A = Bool × GatewayState} (true, state) e)
        (written (attempt_blocked now (get ip state.login_attempts)).1)
]
  where
    written : (o : Option LoginAttempt) → SameSessions state (write_attempt ip state o)
    written none = same_state state
    written (some attempt) = record {
      access = refl;
      sessions = refl;
      poisoned = refl;
      duration = refl;
    }

clear_login_failures-SameSessions :
    (state : GatewayState) (ip : ℕ) → SameSessions state (clear_login_failures state ip)
unfolding clear_login_failures
clear_login_failures-SameSessions state ip = elim (Bool-cases state.attempts_poisoned) [
  | inl e ↦ rw (if_true _ e) (same_state state)
  | inr e ↦
      rw (if_false state e)
        (record { access = refl; sessions = refl; poisoned = refl; duration = refl })
]

-- A gateway with a password whose lock on the sessions is not poisoned.
pub record Serves (password_hash : Text) (state : GatewayState) : Type 0 where
  pub guarded : state.access ≡ password_protected password_hash
  pub usable : state.sessions_poisoned ≡ false
  pub unique : IsUnique state.sessions

keep_serving :
    (password_hash : Text) (before after : GatewayState)
    → SameSessions before after
    → Serves password_hash before
    → Serves password_hash after
keep_serving password_hash before after same s = record {
  guarded = same.access ∙ s.guarded;
  usable = same.poisoned ∙ s.usable;
  unique = subst IsUnique (sym same.sessions) s.unique;
}

-- The `Cookie` header of a browser that holds other cookies and the session cookie of a token.
abbrev pub cookie_header : Text → Text → Text
cookie_header others token = others ++ b';' ∷ b' ' ∷ session_cookie token

-- What a state with a session for a token, up to a time, answers to requests with its cookie.
pub record OpensUntil (expires_at : ℕ) (others token : Text) (state : GatewayState) : Type 0 where
  pub answers :
      (later : ℕ)
      → (is_session_valid state later (cookie_in (some (cookie_header others token)))).0
        ≡ ltb later expires_at
  pub logged_off :
      (later : ℕ)
      → (is_session_valid
          (handle_logout state (cookie_in (some (cookie_header others token)))).1
          later
          (some token)).0
        ≡ false

current_in-retain :
    (now expires_at : ℕ) (token : Text) (m : HashMap Text Session)
    → IsUnique m
    → get token m ≡ some (record { expires_at = expires_at })
    → current_in now (get token (retain (is_current now) m)) ≡ ltb now expires_at
current_in-retain now expires_at token m u e =
    rw (get-retain (is_current now) token m u, e) (ground arith)

current_in-remove :
    (now : ℕ) (token : Text) (m : HashMap Text Session)
    → IsUnique m
    → current_in now (get token (retain (is_current now) (remove token m))) ≡ false
current_in-remove now token m u =
    rw
      (
        get-retain (is_current now) token (remove token m) (remove-IsUnique token m u),
        get-remove token token m,
        same_text_refl token,
      )
      refl

issued-OpensUntil :
    (password_hash : Text) (state : GatewayState) (expires_at : ℕ) (others token : Text)
    → Serves password_hash state
    → get token state.sessions ≡ some (record { expires_at = expires_at })
    → cookie_in (some (cookie_header others token)) ≡ some token
    → OpensUntil expires_at others token state
unfolding handle_logout
issued-OpensUntil password_hash state expires_at others token s e c =
    let protected = ap is_protected_access s.guarded in
    record {
      answers = λ later.
          rw (c, is_session_valid_usable state later token protected s.usable)
            (current_in-retain later expires_at token state.sessions s.unique e);
      logged_off = λ later.
          rw
            (
              c,
              remove_session_usable state token s.usable,
              is_session_valid_usable (record state { sessions = remove token state.sessions })
                  later token protected s.usable,
            )
            (current_in-remove later token state.sessions s.unique);
    }

-- A login with the right password, from an address that is not blocked, that finds 32 random bytes:
-- it is answered with the token and the seconds that its session lasts, and the session answers.
module _ (verifies : Verifier) (as_login : List ℕ → Option Text) where
  right_password :
      (password_hash password : Text) (state : GatewayState) (now ip : ℕ) (random body : List ℕ)
      → state.access ≡ password_protected password_hash
      → (login_is_blocked state now ip).0 ≡ false
      → as_login body ≡ some password
      → verifies password_hash password ≡ true
      → handle_login verifies as_login state now ip random body
        ≡ admit_client (login_is_blocked state now ip).1 now ip random
  unfolding handle_login
  right_password password_hash password state now ip random body guarded free parsed right =
      let after = (login_is_blocked state now ip).1 in
      let same = login_is_blocked-SameSessions state now ip in
      let matches : verify_password verifies after.access password ≡ true =
        ap (λ access. verify_password verifies access password) (same.access ∙ guarded) ∙ right in
      if_true {A = Response × GatewayState} (status true false, state)
        (ap is_protected_access guarded)
      ∙ if_false {A = Response × GatewayState} (too_many_attempts, after) free
      ∙ ap (check_login verifies after now ip random) parsed
      ∙ if_true {A = Response × GatewayState} _ matches

  -- In a gateway with a password whose lock on the sessions is not poisoned, a login from an address
  -- that is not blocked, with a password that the hash is of and at least one random byte, is
  -- answered with the text of the random bytes as its token. A request whose `Cookie` header has
  -- that token after other cookies, none of them a session cookie, is then valid exactly before the
  -- time of the login and the duration of a session have passed, and after a logout with that header
  -- the token is never valid.
  pub login_opens_session :
      (password_hash password : Text) (state : GatewayState) (now ip byte : ℕ)
      (random body : List ℕ) (others : Text)
      → Serves password_hash state
      → IsBytes (byte ∷ random)
      → (login_is_blocked state now ip).0 ≡ false
      → as_login body ≡ some password
      → verifies password_hash password ≡ true
      → cookie_value others cookie_name ≡ none
      → let (answer, after) = handle_login verifies as_login state now ip (byte ∷ random) body in
        (answer ≡ logged_in (hex_text (byte ∷ random)) (seconds state.session_duration))
        × OpensUntil (now + state.session_duration) others (hex_text (byte ∷ random)) after
  login_opens_session password_hash password state now ip byte random body others s bytes free
        parsed right none_other =
      let token = hex_text (byte ∷ random) in
      let unblocked_state = (login_is_blocked state now ip).1 in
      let cleared = clear_login_failures unblocked_state ip in
      let same = login_is_blocked-SameSessions state now ip in
      let same_cleared = clear_login_failures-SameSessions unblocked_state ip in
      let serves =
        keep_serving password_hash unblocked_state cleared same_cleared
          (keep_serving password_hash state unblocked_state same s) in
      let lasts : cleared.session_duration ≡ state.session_duration =
        same_cleared.duration ∙ same.duration in
      rw
        (
          right_password password_hash password state now ip (byte ∷ random) body s.guarded free
              parsed right,
          create_session_usable cleared now (byte ∷ random) serves.usable,
        )
        (
          ap (λ d. logged_in token (seconds d)) lasts,
          issued-OpensUntil password_hash _ (now + state.session_duration) others token
              (record {
                guarded = serves.guarded;
                usable = serves.usable;
                unique = insert-IsUnique token _ cleared.sessions serves.unique;
              })
              (rw
                (
                  get-insert token token (record { expires_at = now + cleared.session_duration })
                      cleared.sessions,
                  same_text_refl token,
                )
                (ap (λ d. some (record { expires_at = now + d })) lasts))
              (cookie_value-session_cookie others byte random bytes none_other),
        )
