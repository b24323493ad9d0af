-- ===== src/Gateway/Lockout.antt =====
-- The logins of the web gateway against a specification with a guard for each address.
use open_audio.Common.{ℕ, ◌≡◌, refl, sym, ap, Bool, true, false, ==_refl, if◌then◌else◌}
use mathlib.Core.Path.{subst}
use open_audio.Common.{Option, none, some, List, [], ◌∷◌, if_true, if_false}
use open_audio.Common.HashMap.{nat_key, get}
use open_audio.Gateway.{
  Text, password_protected, GatewayState, is_protected_access, record_login_failure,
  clear_login_failures, create_session,
}
use open_audio.Gateway.Handlers.{
  Verifier, Response, status, too_many_attempts, wrong_password, handle_login, verify_password,
  check_login, admit_client, session_answer,
}
use open_audio.Gateway.Guards.{
  Guard, counting, locked, Verdict, wrong, admitted, Login, verdict, Guards, set_guard, judge,
  guard_step, password_verdict, login, verdicts, spec_login, spec_verdicts, Holds, Guarded,
  BlockedStep, with_guard, login_is_blocked_step, record_login_failure_step,
  clear_login_failures_step, create_session_step, set_guard_twice,
}

-- One login: what it is answered, and the guards after it.
abbrev LoginStep : Text → ℕ → Guards → Verdict × Guard → Response × GatewayState → Type 0
LoginStep password_hash ip guards (v, guard) (answer, after) =
    (verdict answer ≡ v) × Guarded password_hash after (set_guard ip guard guards)

module _ (verifies : Verifier) where
  admit_client_step :
      (password_hash : Text) (state : GatewayState) (now ip : ℕ) (random : List ℕ) (guards : Guards)
      → Guarded password_hash state guards
      → LoginStep password_hash ip guards (admitted, counting 0) (admit_client state now ip random)
  admit_client_step password_hash state now ip random guards g = (
    session_answer_verdict
        ((create_session (clear_login_failures state ip) now random).1.session_duration)
        ((create_session (clear_login_failures state ip) now random).0),
    create_session_step password_hash _ now random _
        (clear_login_failures_step password_hash state ip guards g),
  )
    where
      session_answer_verdict :
          (duration : ℕ) (token : Option Text) → verdict (session_answer duration token) ≡ admitted
      session_answer_verdict duration none = refl
      session_answer_verdict duration (some token) = refl

  checked_step :
      (password_hash : Text) (state : GatewayState) (now ip n : ℕ) (random : List ℕ)
      (guards : Guards) (matches : Bool)
      → Guarded password_hash state guards
      → Holds (counting n) (get ip state.login_attempts)
      → LoginStep password_hash ip guards (judge now n (if matches then admitted else wrong)) (
          if matches
          then admit_client state now ip random
          else (wrong_password, record_login_failure state now ip))
  checked_step password_hash state now ip n random guards true g h =
      admit_client_step password_hash state now ip random guards g
  checked_step password_hash state now ip n random guards false g h =
      (refl, record_login_failure_step password_hash state now ip n guards g h)

  check_login_step :
      (password_hash : Text) (state : GatewayState) (now ip n : ℕ) (random : List ℕ)
      (guards : Guards) (password : Option Text)
      → Guarded password_hash state guards
      → Holds (counting n) (get ip state.login_attempts)
      → LoginStep password_hash ip guards
          (judge now n (password_verdict verifies password_hash password))
          (check_login verifies state now ip random password)
  check_login_step password_hash state now ip n random guards none g h =
      (refl, with_guard password_hash state ip (counting n) guards g h)
  check_login_step password_hash state now ip n random guards (some password) g h =
      let matches = ap (λ access. verify_password verifies access password) g.guarded in
      subst
        (λ b.
          LoginStep password_hash ip guards (judge now n (if b then admitted else wrong))
            (check_login verifies state now ip random (some password)))
        matches
        (checked_step password_hash state now ip n random guards
          (verify_password verifies state.access password) g h)

module _ (verifies : Verifier) (as_login : List ℕ → Option Text) where
  after_block :
      (password_hash : Text) (state : GatewayState) (l : Login) (guard : Guard) (guards : Guards)
      (r : Bool × GatewayState)
      → BlockedStep password_hash l.ip guard guards r
      → LoginStep password_hash l.ip guards
          (guard_step l.now (password_verdict verifies password_hash (as_login l.body)) guard)
          (if r.0
            then (too_many_attempts, r.1)
            else check_login verifies (r.1) l.now l.ip l.random (as_login l.body))
  after_block password_hash state l (locked until) guards (blocked, after) (e, g) =
      rw (if_true (check_login verifies after l.now l.ip l.random (as_login l.body)) e) (refl, g)
  after_block password_hash state l (counting n) guards (blocked, after) (e, g) =
      let held : Holds (counting n) (get l.ip after.login_attempts) =
        subst (λ b. Holds (if b then counting n else guards l.ip) (get l.ip after.login_attempts))
          (==_refl l.ip) (g.hold l.ip) in
      let (answered, guarded) =
        check_login_step verifies password_hash after l.now l.ip n l.random _ (as_login l.body) g
          held in
      rw (if_false {A = Response × GatewayState} (too_many_attempts, after) e)
        (answered, set_guard_twice password_hash _ l.ip (counting n) _ guards guarded)

  login_step :
      (password_hash : Text) (state : GatewayState) (l : Login) (guards : Guards)
      → Guarded password_hash state guards
      → LoginStep password_hash l.ip guards
          (spec_login verifies as_login password_hash guards l)
          (login verifies as_login state l)
  unfolding handle_login
  login_step password_hash state l guards g =
      let protected = ap is_protected_access g.guarded in
      rw (if_true {A = Response × GatewayState} (status true false, state) protected) (
        after_block password_hash state l _ guards _
          (login_is_blocked_step password_hash state l.now l.ip guards g))

  logins_simulate :
      (password_hash : Text) (ls : List Login) (state : GatewayState) (guards : Guards)
      → Guarded password_hash state guards
      → verdicts verifies as_login state ls
        ≡ spec_verdicts verifies as_login password_hash guards ls
  logins_simulate password_hash [] state guards g = refl
  logins_simulate password_hash (l ∷ ls) state guards g =
      let (same, after) = login_step password_hash state l guards g in
      rw (same, logins_simulate password_hash ls _ _ after) refl

  -- In a gateway with a password and no failed login yet, whose lock on the attempts is not
  -- poisoned, every sequence of logins from any addresses ends as the specification says, in which
  -- each address has a guard of its own: four wrong passwords in a row are counted, the fifth locks
  -- the address for 30 s, a login in that time is refused whatever its password, and after it the
  -- count begins again; a right password sets the count back, a body without a password leaves it.
  pub logins_refine :
      (password_hash : Text) (state : GatewayState) (ls : List Login)
      → state.access ≡ password_protected password_hash
      → state.attempts_poisoned ≡ false
      → state.login_attempts ≡ []
      → verdicts verifies as_login state ls
        ≡ spec_verdicts verifies as_login password_hash (λ ip. counting 0) ls
  logins_refine password_hash state ls guarded usable fresh =
      logins_simulate password_hash ls state (λ ip. counting 0)
        (record {
          guarded = guarded;
          usable = usable;
          hold = λ ip. subst (λ m. Holds (counting 0) (get ip m)) (sym fresh) refl;
        })
