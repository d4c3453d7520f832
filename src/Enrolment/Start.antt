-- ===== src/Enrolment/Start.antt =====
-- When a challenge is started, and when a run of a registered agent may be.
use mathlib.Core.Option.{some-injective}
use proof_arena.Base.{sym, ap, ◌∙◌, subst, ℕ, ◌≡◌, ◌↔◌, refl, Option, none, some, String, arith}
use proof_arena.Base.Result.{Result, ok, err, bind-ok, ok-injective}
use proof_arena.Db.{Challenge, ChallengeStatus, Store, get_challenge}
use proof_arena.Enrolment.{
  EnrolError, challenge_not_found, or_err, check_pending, on_started, start_challenge,
}

pub or_err_ok :
    {A : Type 0} (e : EnrolError) (o : Option A) {a : A} → or_err e o ≡ ok a → o ≡ some a
or_err_ok e none h = absurd (cc)
or_err_ok e (some a) h = cc

check_pending_ok :
    (found : Challenge) {c : Challenge}
    → check_pending found ≡ ok c
    → (found ≡ c) × (found.status ≡ ChallengeStatus.pending)
check_pending_ok found h = ground arith

on_started_ok :
    (now : ℕ) (c : Challenge) (r : Result String String) {started : Challenge}
    → on_started now c r ≡ ok started
    → (tx : String) × (r ≡ ok tx)
      × (started ≡ record c { status = ChallengeStatus.active; started_at = some now })
on_started_ok now c (ok tx) h = (tx, refl, sym (ok-injective h))
on_started_ok now c (err message) h = absurd (cc)

-- A challenge is started exactly if there is a program client, the challenge is stored and pending,
-- and the program's call succeeds; nothing but its status and its start changes then.
pub start_challenge_iff :
    (program : Option (ℕ → Result String String)) (db : Store) (now challenge_id : ℕ)
    (started : Challenge)
    → (start_challenge program db now challenge_id ≡ ok started) ↔ (
        (start : ℕ → Result String String) × (c : Challenge) × (tx : String) × (program
          ≡ some start)
        × (get_challenge db challenge_id ≡ some c)
        × (c.status ≡ ChallengeStatus.pending)
        × (start challenge_id ≡ ok tx)
        × (started ≡ record c { status = ChallengeStatus.active; started_at = some now }))
unfolding start_challenge
start_challenge_iff none db now challenge_id started = ground arith
start_challenge_iff (some start) db now challenge_id started = (
  λ h.
      let (found, got, h') =
        bind-ok (or_err challenge_not_found (get_challenge db challenge_id)) _ h in
      let (c, pending, last) = bind-ok (check_pending found) _ h' in
      let (same, is_pending) = check_pending_ok found pending in
      let (tx, called, left) = on_started_ok now c (start challenge_id) last in
      (
        start,
        c,
        tx,
        refl,
        or_err_ok challenge_not_found _ got ∙ ap some same,
        subst (λ c. c.status ≡ ChallengeStatus.pending) same is_pending,
        called,
        left,
      ),
  λ (start', c, tx, same, found, pending, called, left).
      let called' : start challenge_id ≡ ok tx =
        ap (λ f. f challenge_id) (some-injective _ _ same) ∙ called in
      rw (found, pending, called') (ap ok (sym left)),
)
