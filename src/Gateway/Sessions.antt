-- ===== src/Gateway/Sessions.antt =====
-- The sessions of the web gateway against a specification that never forgets an expired session.
use open_audio.Common.{
  ℕ, ◌+◌, ◌≤◌, ◌≡◌, refl, ap, ◌∙◌, true, false, if◌then◌else◌, arith, none, some,
}
use open_audio.Common.{List, [], ◌∷◌, if_true, if_false}
use open_audio.Common.HashMap.{
  HashMap, text_key, get, insert, remove, retain, IsUnique, insert-IsUnique, remove-IsUnique,
  retain-IsUnique,
}
use open_audio.Gateway.{
  Text, Session, GatewayState, is_protected, is_current, current_in, is_session_valid, hex_text,
  create_session, remove_session, clear_sessions,
}
use open_audio.Gateway.Issued.{
  SessionCall, creates, removes, asks, clears, Answer, valid, call, calls, Issued, spec_call,
  spec_calls, InOrder, Agrees, Simulates, retain-Agrees, insert-Agrees, remove-Agrees,
}

-- One call: the same answer, and states that still agree.
abbrev StepSimulates : ℕ → ℕ → Answer × GatewayState → Answer × Issued → Type 0
StepSimulates now duration (answer, after) (expected, spec) =
    (answer ≡ expected) × Simulates now duration after spec

with_sessions :
    (earlier now duration : ℕ) (state : GatewayState) (before after : Issued)
    (m : HashMap Text Session)
    → Simulates earlier duration state before
    → IsUnique m
    → Agrees now m after
    → Simulates now duration (record state { sessions = m }) after
with_sessions earlier now duration state before after m s u a = record {
  guarded = s.guarded;
  usable = s.usable;
  lasts = s.lasts;
  unique = u;
  agrees = a;
}

later-Simulates :
    (earlier now duration : ℕ) (state : GatewayState) (spec : Issued)
    → earlier ≤ now
    → Simulates earlier duration state spec
    → Simulates now duration state spec
later-Simulates earlier now duration state spec h s = record {
  guarded = s.guarded;
  usable = s.usable;
  lasts = s.lasts;
  unique = s.unique;
  agrees = λ token t later. s.agrees token t (omega arith);
}

pub create_session_usable :
    (state : GatewayState) (now : ℕ) (random : List ℕ)
    → state.sessions_poisoned ≡ false
    → create_session state now random ≡ (
      some (hex_text random),
      record state {
        sessions =
            insert
              (hex_text random)
              (record { expires_at = now + state.session_duration })
              state.sessions;
      },
    )
unfolding create_session
create_session_usable state now random usable = if_false _ usable

pub is_session_valid_usable :
    (state : GatewayState) (now : ℕ) (token : Text)
    → is_protected state ≡ true
    → state.sessions_poisoned ≡ false
    → is_session_valid state now (some token) ≡ (
      current_in now (get token (retain (is_current now) state.sessions)),
      record state { sessions = retain (is_current now) state.sessions },
    )
unfolding is_session_valid
is_session_valid_usable state now token guarded usable = if_true _ guarded ∙ if_false _ usable

is_session_valid_missing :
    (state : GatewayState) (now : ℕ)
    → is_protected state ≡ true
    → is_session_valid state now none ≡ (false, state)
unfolding is_session_valid
is_session_valid_missing state now guarded =
    ap (λ protected. (if protected then false else true, state)) guarded

pub remove_session_usable :
    (state : GatewayState) (token : Text)
    → state.sessions_poisoned ≡ false
    → remove_session state (some token) ≡ record state { sessions = remove token state.sessions }
unfolding remove_session
remove_session_usable state token usable = if_false _ usable

clear_sessions_usable :
    (state : GatewayState)
    → state.sessions_poisoned ≡ false
    → clear_sessions state ≡ record state { sessions = [] }
unfolding clear_sessions
clear_sessions_usable state usable = if_false _ usable

creates-Simulates :
    (earlier now duration : ℕ) (state : GatewayState) (spec : Issued) (random : List ℕ)
    → earlier ≤ now
    → Simulates earlier duration state spec
    → StepSimulates now duration
        (call state now (creates random))
        (spec_call duration spec now (creates random))
creates-Simulates earlier now duration state spec random h s =
    rw (create_session_usable state now random s.usable) (
      refl,
      with_sessions earlier now duration state spec _ _ s
          (insert-IsUnique (hex_text random) _ state.sessions s.unique)
          (insert-Agrees earlier now state.session_duration duration random state.sessions spec h
            s.lasts s.agrees),
    )

asks-Simulates :
    (earlier now duration : ℕ) (state : GatewayState) (spec : Issued) (token : Text)
    → earlier ≤ now
    → Simulates earlier duration state spec
    → StepSimulates now duration
        (call state now (asks (some token)))
        (spec_call duration spec now (asks (some token)))
asks-Simulates earlier now duration state spec token h s =
    let a = retain-Agrees earlier now state.sessions spec h s.unique s.agrees in
    rw (is_session_valid_usable state now token s.guarded s.usable) (
      ap valid (a token now (omega arith)),
      with_sessions earlier now duration state spec spec _ s
          (retain-IsUnique (is_current now) state.sessions s.unique) a,
    )

removes-Simulates :
    (earlier now duration : ℕ) (state : GatewayState) (spec : Issued) (token : Text)
    → earlier ≤ now
    → Simulates earlier duration state spec
    → StepSimulates now duration
        (call state now (removes (some token)))
        (spec_call duration spec now (removes (some token)))
removes-Simulates earlier now duration state spec token h s =
    rw (remove_session_usable state token s.usable) (
      refl,
      with_sessions earlier now duration state spec _ _ s
          (remove-IsUnique token state.sessions s.unique)
          (remove-Agrees earlier now token state.sessions spec h s.agrees),
    )

call-Simulates :
    (earlier now duration : ℕ) (state : GatewayState) (spec : Issued) (c : SessionCall)
    → earlier ≤ now
    → Simulates earlier duration state spec
    → StepSimulates now duration (call state now c) (spec_call duration spec now c)
unfolding remove_session
call-Simulates earlier now duration state spec (creates random) h s =
    creates-Simulates earlier now duration state spec random h s
call-Simulates earlier now duration state spec (removes none) h s =
    (refl, later-Simulates earlier now duration state spec h s)
call-Simulates earlier now duration state spec (removes (some token)) h s =
    removes-Simulates earlier now duration state spec token h s
call-Simulates earlier now duration state spec (asks none) h s =
    rw (is_session_valid_missing state now s.guarded)
      (refl, later-Simulates earlier now duration state spec h s)
call-Simulates earlier now duration state spec (asks (some token)) h s =
    asks-Simulates earlier now duration state spec token h s
call-Simulates earlier now duration state spec clears h s =
    rw (clear_sessions_usable state s.usable)
      (refl, with_sessions earlier now duration state spec _ _ s tt (λ token t later. refl))

calls_agree :
    (now duration : ℕ) (state : GatewayState) (spec : Issued) (cs : List (ℕ × SessionCall))
    → InOrder now cs
    → Simulates now duration state spec
    → calls state cs ≡ spec_calls duration spec cs
calls_agree now duration state spec [] o s = refl
calls_agree now duration state spec ((t, c) ∷ cs) (h, o) s =
    let (same, after) = call-Simulates now t duration state spec c h s in
    rw (same, calls_agree t duration _ _ cs o after) refl

-- A gateway with a password, whose lock on the sessions is not poisoned, answers every sequence of
-- calls on its sessions, made at times that never go back, as the specification does that keeps the
-- last session issued for each token until it is removed and never drops an expired one: a token is
-- valid exactly when it was issued, was not removed since, and less than the duration has passed.
pub sessions_refine :
    (duration : ℕ) (state : GatewayState) (cs : List (ℕ × SessionCall))
    → is_protected state ≡ true
    → state.sessions_poisoned ≡ false
    → state.session_duration ≡ duration
    → IsUnique state.sessions
    → InOrder 0 cs
    → calls state cs ≡ spec_calls duration (λ token. get token state.sessions) cs
sessions_refine duration state cs guarded usable lasts unique o =
    calls_agree 0 duration state _ cs o (record {
      guarded = guarded;
      usable = usable;
      lasts = lasts;
      unique = unique;
      agrees = λ token t later. refl;
    })
