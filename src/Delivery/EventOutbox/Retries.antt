-- ===== src/Delivery/EventOutbox/Retries.antt =====
-- eventOutbox.js: events that keep failing, and the delay between attempts.
use native.Mathlib.Nat.{one-le-pow, pow-le-pow_right}
use communications_service.Prelude.{
  ℕ, zero, suc, ◌+◌, ◌-◌, ◌^◌, ◌≤◌, ◌<◌, min, String, true, false, none, List, [], ◌∷◌, ◌≡◌, refl,
  arith, All, length, if◌then◌else◌, leb, subst,
}
use communications_service.Delivery.EventOutbox.{
  Row, Claim, Answer, is_success, is_final, failed, retrying, is_open, update_row, deferred, settle,
  released, exhausted, claimable, Outbox, claim, answered, take_claim, nth, step, run, enqueued,
  max_attempts, delay_ms,
}

-- A failure that may be tried again.
abbrev pub IsRetried : Answer → Type 0
IsRetried answer = (is_success answer ≡ false) × (is_final answer ≡ false)

-- A worker claims the event when it is due, and its request gets this answer at once.
unfoldable pub round : String → Outbox → Answer → Outbox
round event_type o answer =
    run event_type o
      (claim true o.row.next_attempt_at ∷ answered zero true answer o.row.next_attempt_at ∷ [])

unfoldable pub rounds : String → Outbox → List Answer → Outbox
unfolding round
rounds event_type o [] = o
rounds event_type o (answer ∷ answers) = rounds event_type (round event_type o answer) answers

record IsDue (o : Outbox) (k : ℕ) : Type 0 where
  opened : is_open o.row.status ≡ true
  unleased : o.row.lease_token ≡ none
  unexpired : o.row.lease_expires_at ≡ none
  attempts : o.row.attempts ≡ k

round-fails :
    (event_type : String) (o : Outbox) (answer : Answer) (k : ℕ)
    → IsRetried answer
    → IsDue o k
    → (round event_type o answer).row
      ≡ settle
          (record { token = o.tokens; attempts = k })
          answer
          o.row.next_attempt_at
          (take_claim o o.row.next_attempt_at).row
unfolding round run step claimable take_claim nth update_row deferred
round-fails event_type o answer k r d = ground (arith, d.opened, d.unexpired, d.attempts)

settle-fails :
    (c : Claim) (answer : Answer) (now : ℕ) (row : Row)
    → IsRetried answer
    → ((settle c answer now row).attempts ≡ suc c.attempts)
      × ((settle c answer now row).lease_token ≡ none)
      × ((settle c answer now row).lease_expires_at ≡ none)
      × ((settle c answer now row).status
          ≡ (if leb max_attempts (suc c.attempts) then failed else retrying))
unfolding settle released exhausted
settle-fails c answer now row r = (ground arith, ground arith, ground arith, ground arith)

round-IsDue :
    (event_type : String) (o : Outbox) (answer : Answer) (k : ℕ)
    → IsRetried answer
    → IsDue o k
    → suc k < max_attempts
    → IsDue (round event_type o answer) (suc k)
round-IsDue event_type o answer k r d below =
    let e = round-fails event_type o answer k r d in
    let c : Claim = record { token = o.tokens; attempts = k } in
    let now = o.row.next_attempt_at in
    let (a, l, x, s) = settle-fails c answer now (take_claim o now).row r in
    record {
      opened = rw (e, s) (ground arith);
      unleased = rw e l;
      unexpired = rw e x;
      attempts = rw e a;
    }

round-given_up :
    (event_type : String) (o : Outbox) (answer : Answer) (k : ℕ)
    → IsRetried answer
    → IsDue o k
    → suc k ≡ max_attempts
    → ((round event_type o answer).row.attempts ≡ suc k)
      × ((round event_type o answer).row.status ≡ failed)
round-given_up event_type o answer k r d last =
    let e = round-fails event_type o answer k r d in
    let c : Claim = record { token = o.tokens; attempts = k } in
    let now = o.row.next_attempt_at in
    let (a, l, x, s) = settle-fails c answer now (take_claim o now).row r in
    (rw e a, rw (e, s) (ground arith))

rounds-IsDue :
    (event_type : String) (o : Outbox) (answers : List Answer) (k : ℕ)
    → All IsRetried answers
    → IsDue o k
    → k + length answers < max_attempts
    → IsDue (rounds event_type o answers) (k + length answers)
unfolding rounds
rounds-IsDue event_type o [] k r d below = subst (IsDue o) (omega arith) d
rounds-IsDue event_type o (a ∷ rest) k r d below =
    subst (IsDue (rounds event_type (round event_type o a) rest)) (omega arith) (
      rounds-IsDue event_type (round event_type o a) rest (suc k) r.1
        (round-IsDue event_type o a k r.0 d (omega arith)) (omega arith))

rounds-given_up :
    (event_type : String) (o : Outbox) (answers : List Answer) (k : ℕ)
    → All IsRetried answers
    → IsDue o k
    → k < max_attempts
    → k + length answers ≡ max_attempts
    → ((rounds event_type o answers).row.attempts ≡ max_attempts)
      × ((rounds event_type o answers).row.status ≡ failed)
unfolding rounds
rounds-given_up event_type o [] k r d below e = absurd (omega arith)
rounds-given_up event_type o (a ∷ []) k r d below e =
    let g = round-given_up event_type o a k r.0 d (omega arith) in (omega (arith, g.0), g.1)
rounds-given_up event_type o (a ∷ b ∷ rest) k r d below e =
    rounds-given_up event_type (round event_type o a) (b ∷ rest) (suc k) r.1
      (round-IsDue event_type o a k r.0 d (omega arith)) (omega arith) (omega arith)

enqueued-IsDue : (now : ℕ) → IsDue (enqueued now) 0
enqueued-IsDue now = record { opened = refl; unleased = refl; unexpired = refl; attempts = refl }

-- An event whose requests all fail in a way that may be tried again, each claimed when it is due and
-- its dispatch switched on, stays open with its failures counted up to the eleventh, and is given up
-- at the twelfth.
pub rounds-gives_up :
    (event_type : String) (now : ℕ) (answers : List Answer)
    → All IsRetried answers
    → (length answers < 12
        → ((rounds event_type (enqueued now) answers).row.attempts ≡ length answers)
          × (is_open (rounds event_type (enqueued now) answers).row.status ≡ true))
      × (length answers ≡ 12 → (rounds event_type (enqueued now) answers).row.status ≡ failed)
rounds-gives_up event_type now answers r = (
  λ below.
      let d =
        rounds-IsDue event_type (enqueued now) answers 0 r (enqueued-IsDue now) (omega arith) in
      (omega (arith, d.attempts), d.opened),
  λ e.
      (rounds-given_up event_type (enqueued now) answers 0 r (enqueued-IsDue now) (omega arith)
        (omega (arith, e))).1,
)

power-bounds : (n : ℕ) → n ≤ 9 → (1 ≤ 2 ^ n) × (2 ^ n ≤ 512)
power-bounds n h =
    let top : 2 ^ n ≤ 2 ^ 9 = pow-le-pow_right (omega arith) h in
    (one-le-pow n 2 (omega arith), top)

-- The delay before the next attempt is between five seconds and 2560 seconds, so the cap of an hour
-- is never reached.
pub delay_ms-bounds : (attempts : ℕ) → (5000 ≤ delay_ms attempts) × (delay_ms attempts ≤ 2560000)
unfolding delay_ms
delay_ms-bounds attempts =
    let (low, high) = power-bounds (min (attempts - 1) 9) (omega arith) in
    (omega arith, omega arith)
