-- ===== src/Gateway/Guards.antt =====
-- A guard for each address of the web gateway, and what the calls on the failed logins make of it.
use open_audio.Common.{
  ℕ, ◌+◌, ◌<◌, ◌≡◌, refl, sym, Bool, true, false, ltb, ◌==◌, ==_iff, if◌then◌else◌, arith,
}
use mathlib.Core.Path.{subst}
use open_audio.Common.{Option, none, some, List, [], ◌∷◌, Bool-cases, inl, inr, if_true, if_false}
use open_audio.Common.HashMap.{HashMap, nat_key, get, insert, remove, get-insert, get-remove}
use open_audio.Gateway.{
  Text, password_protected, LoginAttempt, GatewayState, login_lockout_duration, unblocked,
  attempt_blocked, write_attempt, login_is_blocked, attempt_or_default, failed_once_more,
  record_login_failure, clear_login_failures, create_session,
}
use open_audio.Gateway.Handlers.{
  Verifier, Response, too_many_attempts, invalid_login, wrong_password, handle_login,
}

-- What an address may do: it has so many wrong passwords behind it, or is refused up to a time.
pub data Guard : Type 0 where
  counting locked : ℕ → Guard

-- How a login ends, and what its body holds: no password, a wrong one, or the right one.
pub data Verdict : Type 0 where
  refused malformed wrong admitted : Verdict

abbrev pub verdict : Response → Verdict
verdict too_many_attempts = refused
verdict invalid_login = malformed
verdict wrong_password = wrong
verdict _ = admitted

abbrev pub Guards : Type 0
Guards = ℕ → Guard

abbrev pub set_guard : ℕ → Guard → Guards → Guards
set_guard ip guard guards j = if ip == j then guard else guards j

-- A lock that has run out is gone, with the count.
abbrev pub release : ℕ → Guard → Guard
release now (counting n) = counting n
release now (locked until) = if ltb now until then locked until else counting 0

abbrev pub count_wrong : ℕ → ℕ → Guard
count_wrong now n = if ltb n 4 then counting (n + 1) else locked (now + login_lockout_duration)

abbrev pub judge : ℕ → ℕ → Verdict → Verdict × Guard
judge now n wrong = (wrong, count_wrong now n)
judge now n admitted = (admitted, counting 0)
judge now n v = (v, counting n)

abbrev pub guard_step : ℕ → Verdict → Guard → Verdict × Guard
guard_step now body (counting n) = judge now n body
guard_step now body (locked until) = (refused, locked until)

pub record Login : Type 0 where
  pub now : ℕ
  pub ip : ℕ
  pub random : List ℕ
  pub body : List ℕ

abbrev pub password_verdict : Verifier → Text → Option Text → Verdict
password_verdict verifies password_hash none = malformed
password_verdict verifies password_hash (some password) =
    if verifies password_hash password then admitted else wrong

module _ (verifies : Verifier) (as_login : List ℕ → Option Text) where
  abbrev pub login : GatewayState → Login → Response × GatewayState
  login state l = handle_login verifies as_login state l.now l.ip l.random l.body

  abbrev pub verdicts : GatewayState → List Login → List Verdict
  verdicts state [] = []
  verdicts state (l ∷ ls) =
      let (answer, after) = login state l in verdict answer ∷ verdicts after ls

  abbrev pub spec_login : Text → Guards → Login → Verdict × Guard
  spec_login password_hash guards l =
      guard_step l.now (password_verdict verifies password_hash (as_login l.body))
        (release l.now (guards l.ip))

  abbrev pub spec_verdicts : Text → Guards → List Login → List Verdict
  spec_verdicts password_hash guards [] = []
  spec_verdicts password_hash guards (l ∷ ls) =
      let (v, guard) = spec_login password_hash guards l in
      v ∷ spec_verdicts password_hash (set_guard l.ip guard guards) ls

-- The entry of an address stands for its guard.
abbrev pub Holds : Guard → Option LoginAttempt → Type 0
Holds (counting n) none = n ≡ 0
Holds (counting n) (some attempt) =
    (attempt.failures ≡ n) × (n < 5) × (attempt.blocked_until ≡ none)
Holds (locked until) none = ⊥
Holds (locked until) (some attempt) = attempt.blocked_until ≡ some until

abbrev AllHold : Guards → HashMap ℕ LoginAttempt → Type 0
AllHold guards m = (ip : ℕ) → Holds (guards ip) (get ip m)

pub record Guarded (password_hash : Text) (state : GatewayState) (guards : Guards) : Type 0 where
  pub guarded : state.access ≡ password_protected password_hash
  pub usable : state.attempts_poisoned ≡ false
  pub hold : AllHold guards state.login_attempts

insert-Holds :
    (ip : ℕ) (guard : Guard) (attempt : LoginAttempt) (guards : Guards) (m : HashMap ℕ LoginAttempt)
    → Holds guard (some attempt)
    → AllHold guards m
    → AllHold (set_guard ip guard guards) (insert ip attempt m)
insert-Holds ip guard attempt guards m h a j =
    rw (get-insert j ip attempt m)
      (elim (Bool-cases (ip == j)) [ inl e ↦ rw e h | inr e ↦ rw e (a j) ])

remove-Holds :
    (ip : ℕ) (guards : Guards) (m : HashMap ℕ LoginAttempt)
    → AllHold guards m
    → AllHold (set_guard ip (counting 0) guards) (remove ip m)
remove-Holds ip guards m a j =
    rw (get-remove j ip m) (elim (Bool-cases (ip == j)) [ inl e ↦ rw e refl | inr e ↦ rw e (a j) ])

keep-Holds :
    (ip : ℕ) (guard : Guard) (guards : Guards) (m : HashMap ℕ LoginAttempt)
    → Holds guard (get ip m)
    → AllHold guards m
    → AllHold (set_guard ip guard guards) m
keep-Holds ip guard guards m h a j = elim (Bool-cases (ip == j)) [
  | inl e ↦ rw (e, sym ((==_iff ip j).0 e)) h
  | inr e ↦ rw e (a j)
]

with_attempts :
    (password_hash : Text) (state : GatewayState) (before after : Guards)
    (m : HashMap ℕ LoginAttempt)
    → Guarded password_hash state before
    → AllHold after m
    → Guarded password_hash (record state { login_attempts = m }) after
with_attempts password_hash state before after m g h = record {
  guarded = g.guarded;
  usable = g.usable;
  hold = h;
}

pub with_guard :
    (password_hash : Text) (state : GatewayState) (ip : ℕ) (guard : Guard) (guards : Guards)
    → Guarded password_hash state guards
    → Holds guard (get ip state.login_attempts)
    → Guarded password_hash state (set_guard ip guard guards)
with_guard password_hash state ip guard guards g h = record {
  guarded = g.guarded;
  usable = g.usable;
  hold = keep-Holds ip guard guards state.login_attempts h g.hold;
}

-- Whether a guard that was released refuses.
abbrev pub refuses : Guard → Bool
refuses (counting n) = false
refuses (locked until) = true

-- What the entry is after `get_mut`, which may change it.
abbrev Leaves : Guard → Option LoginAttempt → Option LoginAttempt → Type 0
Leaves guard o none = Holds guard o
Leaves guard o (some attempt) = Holds guard (some attempt)

-- What the test for a block answers, and what it leaves, for an entry that a guard stands for.
abbrev BlockStep : ℕ → Guard → Option LoginAttempt → Type 0
BlockStep now guard o =
    let (blocked, changed) = attempt_blocked now o in
    (blocked ≡ refuses (release now guard)) × Leaves (release now guard) o changed

locked_step :
    (locks : Bool) (until : ℕ) (attempt : LoginAttempt)
    → attempt.blocked_until ≡ some until
    → let (blocked, changed) : Bool × Option LoginAttempt =
        if locks then (true, none) else (false, some unblocked) in
      let guard = if locks then locked until else counting 0 in
      (blocked ≡ refuses guard) × Leaves guard (some attempt) changed
locked_step true until attempt h = (refl, h)
locked_step false until attempt h = (refl, (refl, omega arith, refl))

attempt_blocked_step :
    (now : ℕ) (guard : Guard) (o : Option LoginAttempt) → Holds guard o → BlockStep now guard o
attempt_blocked_step now (counting n) none h = (refl, h)
attempt_blocked_step now (counting n) (some attempt) (f, few, b) = rw b (refl, (f, few, refl))
attempt_blocked_step now (locked until) none h = absurd h
attempt_blocked_step now (locked until) (some attempt) h = rw h (
    locked_step (ltb now until) until
      (record { failures = attempt.failures; blocked_until = some until }) refl)

-- A call on the state, and the guards after it.
abbrev pub BlockedStep : Text → ℕ → Guard → Guards → Bool × GatewayState → Type 0
BlockedStep password_hash ip guard guards (blocked, after) =
    (blocked ≡ refuses guard) × Guarded password_hash after (set_guard ip guard guards)

write_attempt_step :
    (password_hash : Text) (state : GatewayState) (now ip : ℕ) (guards : Guards)
    (r : Bool × Option LoginAttempt)
    → Guarded password_hash state guards
    → (r.0 ≡ refuses (release now (guards ip)))
      × Leaves (release now (guards ip)) (get ip state.login_attempts) (r.1)
    → BlockedStep password_hash ip
        (release now (guards ip))
        guards
        (r.0, write_attempt ip state (r.1))
write_attempt_step password_hash state now ip guards (blocked, none) g (e, h) =
    (e, with_guard password_hash state ip _ guards g h)
write_attempt_step password_hash state now ip guards (blocked, some attempt) g (e, h) = (
  e,
  with_attempts password_hash state guards _ _ g
      (insert-Holds ip _ attempt guards state.login_attempts h g.hold),
)

pub login_is_blocked_step :
    (password_hash : Text) (state : GatewayState) (now ip : ℕ) (guards : Guards)
    → Guarded password_hash state guards
    → BlockedStep password_hash ip (release now (guards ip)) guards (login_is_blocked state now ip)
unfolding login_is_blocked
login_is_blocked_step password_hash state now ip guards g =
    let step = attempt_blocked_step now (guards ip) (get ip state.login_attempts) (g.hold ip) in
    let r = attempt_blocked now (get ip state.login_attempts) in
    rw (if_false {A = Bool × GatewayState} (true, state) g.usable)
      (write_attempt_step password_hash state now ip guards r g step)

failed_once_more-Holds :
    (now n : ℕ) (o : Option LoginAttempt)
    → Holds (counting n) o
    → Holds (count_wrong now n) (some (failed_once_more now (attempt_or_default o)))
failed_once_more-Holds now n none h = rw h (refl, omega arith, refl)
failed_once_more-Holds now n (some attempt) (f, few, b) = elim (Bool-cases (ltb n 4)) [
  | inl e ↦ rw (e, f) (ground arith)
  | inr e ↦ rw (e, f) (ground arith)
]

pub record_login_failure_step :
    (password_hash : Text) (state : GatewayState) (now ip n : ℕ) (guards : Guards)
    → Guarded password_hash state guards
    → Holds (counting n) (get ip state.login_attempts)
    → Guarded password_hash
        (record_login_failure state now ip)
        (set_guard ip (count_wrong now n) guards)
unfolding record_login_failure
record_login_failure_step password_hash state now ip n guards g h = rw (if_false state g.usable) (
    with_attempts password_hash state guards _ _ g
      (insert-Holds ip _ _ guards state.login_attempts (failed_once_more-Holds now n _ h) g.hold))

pub clear_login_failures_step :
    (password_hash : Text) (state : GatewayState) (ip : ℕ) (guards : Guards)
    → Guarded password_hash state guards
    → Guarded password_hash (clear_login_failures state ip) (set_guard ip (counting 0) guards)
unfolding clear_login_failures
clear_login_failures_step password_hash state ip guards g = rw (if_false state g.usable) (
    with_attempts password_hash state guards _ _ g
      (remove-Holds ip guards state.login_attempts g.hold))

pub create_session_step :
    (password_hash : Text) (state : GatewayState) (now : ℕ) (random : List ℕ) (guards : Guards)
    → Guarded password_hash state guards
    → Guarded password_hash (create_session state now random).1 guards
unfolding create_session
create_session_step password_hash state now random guards g =
    elim (Bool-cases state.sessions_poisoned) [
      | inl e ↦ rw (if_true _ e) g
      | inr e ↦
          rw (if_false {A = Option Text × GatewayState} (none, state) e)
            (record { guarded = g.guarded; usable = g.usable; hold = g.hold })
    ]

twice {ℓ} :
    {A : Type ℓ} (b : Bool) (x y z : A)
    → (if b then x else if b then y else z) ≡ (if b then x else z)
twice true x y z = refl
twice false x y z = refl

pub set_guard_twice :
    (password_hash : Text) (state : GatewayState) (ip : ℕ) (first second : Guard) (guards : Guards)
    → Guarded password_hash state (set_guard ip second (set_guard ip first guards))
    → Guarded password_hash state (set_guard ip second guards)
set_guard_twice password_hash state ip first second guards g = record {
  guarded = g.guarded;
  usable = g.usable;
  hold = λ j.
      subst (λ guard. Holds guard (get j state.login_attempts))
        (twice (ip == j) second first (guards j)) (g.hold j);
}
