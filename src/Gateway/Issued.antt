-- ===== src/Gateway/Issued.antt =====
-- The specification of the web gateway's sessions: it never forgets an expired one.
use open_audio.Common.{
  ℕ, ◌+◌, ◌≤◌, ◌≡◌, refl, ◌∙◌, Bool, true, false, if◌then◌else◌, arith, Option, none, some,
}
use open_audio.Common.{List, [], ◌∷◌, Bool-cases, inl, inr, ltb}
use open_audio.Common.HashMap.{
  HashMap, text_key, same_text, get, insert, remove, retain, kept, IsUnique, get-insert, get-remove,
  get-retain,
}
use open_audio.Gateway.{
  Text, Session, GatewayState, is_protected, is_current, current_in, is_session_valid, hex_text,
  create_session, remove_session, clear_sessions,
}

-- A call on the sessions: a login with its random bytes, a logout, a request that asks whether its
-- token is valid, and the end of the gateway.
pub data SessionCall : Type 0 where
  creates : List ℕ → SessionCall
  removes : Option Text → SessionCall
  asks : Option Text → SessionCall
  clears : SessionCall

pub data Answer : Type 0 where
  issued : Option Text → Answer
  valid : Bool → Answer
  done : Answer

abbrev pub call : GatewayState → ℕ → SessionCall → Answer × GatewayState
call state now (creates random) =
    let (token, after) = create_session state now random in (issued token, after)
call state now (removes token) = (done, remove_session state token)
call state now (asks token) =
    let (answer, after) = is_session_valid state now token in (valid answer, after)
call state now clears = (done, clear_sessions state)

abbrev pub calls : GatewayState → List (ℕ × SessionCall) → List Answer
calls state [] = []
calls state ((now, c) ∷ cs) = let (answer, after) = call state now c in answer ∷ calls after cs

-- The specification: for each token the session it was last issued with, until it is removed.
abbrev pub Issued : Type 0
Issued = Text → Option Session

abbrev pub issue : ℕ → ℕ → List ℕ → Issued → Issued
issue duration now random spec token =
    if same_text (hex_text random) token
    then some (record { expires_at = now + duration })
    else spec token

abbrev pub forget : Text → Issued → Issued
forget removed spec token = if same_text removed token then none else spec token

-- A token is valid before its session ends, and not at this moment any more.
abbrev pub holds_at : ℕ → Option Session → Bool
holds_at now none = false
holds_at now (some session) = ltb now session.expires_at

abbrev pub spec_call : ℕ → Issued → ℕ → SessionCall → Answer × Issued
spec_call duration spec now (creates random) =
    (issued (some (hex_text random)), issue duration now random spec)
spec_call duration spec now (removes none) = (done, spec)
spec_call duration spec now (removes (some token)) = (done, forget token spec)
spec_call duration spec now (asks none) = (valid false, spec)
spec_call duration spec now (asks (some token)) = (valid (holds_at now (spec token)), spec)
spec_call duration spec now clears = (done, λ token. none)

abbrev pub spec_calls : ℕ → Issued → List (ℕ × SessionCall) → List Answer
spec_calls duration spec [] = []
spec_calls duration spec ((now, c) ∷ cs) =
    let (answer, after) = spec_call duration spec now c in answer ∷ spec_calls duration after cs

-- The clock never goes back.
abbrev pub InOrder : ℕ → List (ℕ × SessionCall) → Type 0
InOrder now [] = Unit {0}
InOrder now ((t, c) ∷ cs) = (now ≤ t) × InOrder t cs

-- From the time `now` on, the state and the specification hold the same tokens for valid.
abbrev pub Agrees : ℕ → HashMap Text Session → Issued → Type 0
Agrees now sessions spec =
    (token : Text) (t : ℕ) → now ≤ t → current_in t (get token sessions) ≡ holds_at t (spec token)

pub record Simulates (now duration : ℕ) (state : GatewayState) (spec : Issued) : Type 0 where
  pub guarded : is_protected state ≡ true
  pub usable : state.sessions_poisoned ≡ false
  pub lasts : state.session_duration ≡ duration
  pub unique : IsUnique state.sessions
  pub agrees : Agrees now state.sessions spec

current_in-kept :
    (now t : ℕ) (o : Option Session)
    → now ≤ t
    → current_in t (kept (is_current now) o) ≡ current_in t o
current_in-kept now t none h = refl
current_in-kept now t (some session) h = ground arith

pub retain-Agrees :
    (earlier now : ℕ) (sessions : HashMap Text Session) (spec : Issued)
    → earlier ≤ now
    → IsUnique sessions
    → Agrees earlier sessions spec
    → Agrees now (retain (is_current now) sessions) spec
retain-Agrees earlier now sessions spec h u a token t later =
    rw (get-retain (is_current now) token sessions u)
      (current_in-kept now t (get token sessions) later ∙ a token t (omega arith))

pub insert-Agrees :
    (earlier now held duration : ℕ) (random : List ℕ) (sessions : HashMap Text Session)
    (spec : Issued)
    → earlier ≤ now
    → held ≡ duration
    → Agrees earlier sessions spec
    → Agrees now
        (insert (hex_text random) (record { expires_at = now + held }) sessions)
        (issue duration now random spec)
insert-Agrees earlier now held duration random sessions spec h same a token t later =
    rw (get-insert token (hex_text random) (record { expires_at = now + held }) sessions)
      (elim (Bool-cases (same_text (hex_text random) token)) [
        | inl e ↦ rw (e, same) refl
        | inr e ↦ rw e (a token t (omega arith))
      ])

pub remove-Agrees :
    (earlier now : ℕ) (removed : Text) (sessions : HashMap Text Session) (spec : Issued)
    → earlier ≤ now
    → Agrees earlier sessions spec
    → Agrees now (remove removed sessions) (forget removed spec)
remove-Agrees earlier now removed sessions spec h a token t later =
    rw (get-remove token removed sessions) (elim (Bool-cases (same_text removed token)) [
      | inl e ↦ rw e refl
      | inr e ↦ rw e (a token t (omega arith))
    ])
