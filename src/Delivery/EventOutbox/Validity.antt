-- ===== src/Delivery/EventOutbox/Validity.antt =====
-- eventOutbox.js: the reachable states of an event.
use communications_service.Prelude.{
  ℕ, zero, suc, ◌≤◌, ◌<◌, String, Bool, true, false, Option, none, some, List, [], ◌∷◌, ◌≡◌, refl,
  inl, inr, arith, All, All-map, Bool-cases, Option-cases, ◌⊎◌,
}
use communications_service.Delivery.EventOutbox.{
  Row, Claim, Answer, holds, is_open, exhausted, released, put_off, settle, deferred, update_row,
  claimable, Outbox, Event, claim, answered, requeued, requeue, take_claim, nth, without, step, run,
  enqueued, max_attempts,
}

abbrev pub IsGiven : ℕ → Option ℕ → Type 0
IsGiven tokens none = Unit {0}
IsGiven tokens (some t) = t < tokens

-- A row whose attempts are bounded, strictly while it is open, and that is leased only while open.
pub record IsBounded (row : Row) : Type 0 where
  pub attempts : row.attempts ≤ max_attempts
  pub attempts_open : is_open row.status ≡ true → row.attempts < max_attempts
  pub leased : is_open row.status ≡ false → row.lease_token ≡ none

-- A claim that is still the row's has the row's attempts.
abbrev pub IsCopy : Row → ℕ → Claim → Type 0
IsCopy row tokens c =
    (c.token < tokens) × (holds row.lease_token c.token ≡ true → row.attempts ≡ c.attempts)

pub record IsValid (o : Outbox) : Type 0 where
  pub bounded : IsBounded o.row
  pub given : IsGiven o.tokens o.row.lease_token
  pub copies : All (IsCopy o.row o.tokens) o.in_flight

nth-All :
    (P : Claim → Type 0) (cs : List Claim) (i : ℕ) (c : Claim) → nth cs i ≡ some c → All P cs → P c
unfolding nth
nth-All P [] i c e h = absurd (cc e)
nth-All P (x ∷ xs) zero c e h = ground arith
nth-All P (x ∷ xs) (suc i) c e h = nth-All P xs i c e h.1

without-All : (P : Claim → Type 0) (cs : List Claim) (i : ℕ) → All P cs → All P (without cs i)
unfolding without
without-All P [] i h = h
without-All P (x ∷ xs) zero h = h.1
without-All P (x ∷ xs) (suc i) h = (h.0, without-All P xs i h.1)

take_claim-IsValid :
    (o : Outbox) (now : ℕ) → is_open o.row.status ≡ true → IsValid o → IsValid (take_claim o now)
unfolding take_claim
take_claim-IsValid o now opened v = record {
  bounded = record {
    attempts = v.bounded.attempts;
    attempts_open = v.bounded.attempts_open;
    leased = λ closed. absurd (cc (rw opened at closed));
  };
  given = omega arith;
  copies = (
    (omega arith, λ h. refl),
    All-map (IsCopy o.row o.tokens) (IsCopy (take_claim o now).row (suc o.tokens)) o.in_flight
        (λ c k. (omega (arith, k.0), λ h. ground (arith, k.0))) v.copies,
  );
}

settle-IsBounded :
    (c : Claim) (answer : Answer) (now : ℕ) (row : Row)
    → c.attempts < max_attempts
    → IsBounded (settle c answer now row)
unfolding settle released exhausted
settle-IsBounded c answer now row h = record {
  attempts = ground arith;
  attempts_open = λ opened. ground arith;
  leased = λ closed. ground arith;
}

put_off-IsBounded :
    (now : ℕ) (row : Row) → row.attempts < max_attempts → IsBounded (put_off now row)
unfolding put_off released
put_off-IsBounded now row h = record {
  attempts = omega arith;
  attempts_open = λ opened. h;
  leased = λ closed. refl;
}

put_off-released : (now : ℕ) (row : Row) → (put_off now row).lease_token ≡ none
unfolding put_off released
put_off-released now row = refl

settle-released :
    (c : Claim) (answer : Answer) (now : ℕ) (row : Row)
    → (settle c answer now row).lease_token ≡ none
unfolding settle released
settle-released c answer now row = ground arith

released-IsCopy :
    (row row' : Row) (tokens : ℕ) (cs : List Claim)
    → row'.lease_token ≡ none
    → All (IsCopy row tokens) cs
    → All (IsCopy row' tokens) cs
released-IsCopy row row' tokens cs e h =
    All-map (IsCopy row tokens) (IsCopy row' tokens) cs
      (λ c k. (k.0, λ held. absurd (cc (rw e at held)))) h

held-is_open :
    (row : Row) (t : ℕ) → IsBounded row → holds row.lease_token t ≡ true → is_open row.status ≡ true
held-is_open row t b held = elim (Bool-cases (is_open row.status)) [
  | inl e ↦ e
  | inr e ↦ absurd (cc (rw (b.leased e) at held))
]

-- What an update leaves: the row as it was, or a bounded one without a lease.
update_row-released :
    (event_type : String) (c : Claim) (enabled : Bool) (answer : Answer) (now : ℕ) (row : Row)
    → IsBounded row
    → (holds row.lease_token c.token ≡ true → row.attempts ≡ c.attempts)
    → (update_row event_type c enabled answer now row ≡ row)
      ⊎ (IsBounded (update_row event_type c enabled answer now row)
          × ((update_row event_type c enabled answer now row).lease_token ≡ none))
unfolding update_row
update_row-released event_type c enabled answer now row b k =
    elim (Bool-cases (holds row.lease_token c.token)) [
      | inr e ↦ inl (rw e)
      | inl e ↦
          let below : row.attempts < max_attempts =
            b.attempts_open (held-is_open row c.token b e) in
          let same_attempts = k e in
          let claimed : c.attempts < max_attempts = omega (arith, below, same_attempts) in
          elim (Bool-cases (deferred event_type enabled)) [
            | inl d ↦ inr (rw (e, d) (put_off-IsBounded now row below, put_off-released now row))
            | inr d ↦ inr (
                rw (e, d)
                  (settle-IsBounded c answer now row claimed, settle-released c answer now row))
          ]
    ]

requeue-IsValid :
    (o : Outbox) (now : ℕ) → IsValid o → IsValid (record o { row = requeue now o.row })
unfolding requeue released
requeue-IsValid o now v = record {
  bounded = record {
    attempts = omega arith;
    attempts_open = λ opened. omega arith;
    leased = λ closed. refl;
  };
  given = tt;
  copies = released-IsCopy o.row (requeue now o.row) o.tokens o.in_flight refl v.copies;
}

step-IsValid :
    (event_type : String) (o : Outbox) (e : Event) → IsValid o → IsValid (step event_type o e)
unfolding step claimable
step-IsValid event_type o (claim active now) v = elim (Bool-cases (claimable active now o.row)) [
  | inl e ↦ rw (e, step) (take_claim-IsValid o now (ground arith) v)
  | inr e ↦ rw (e, step) v
]
step-IsValid event_type o (answered i enabled answer now) v =
    elim (Option-cases (nth o.in_flight i)) [
      | inl e ↦ rw (e, step) v
      | inr (c, e) ↦
          let copy = nth-All (IsCopy o.row o.tokens) o.in_flight i c e v.copies in
          let rest = without-All (IsCopy o.row o.tokens) o.in_flight i v.copies in
          elim (update_row-released event_type c enabled answer now o.row v.bounded copy.1) [
            | inl k ↦
                rw (e, step, k) (record { bounded = v.bounded; given = v.given; copies = rest })
            | inr (b, l) ↦
                rw (e, step)
                  (record {
                    bounded = b;
                    given = rw l tt;
                    copies =
                        released-IsCopy o.row (update_row event_type c enabled answer now o.row)
                          o.tokens (without o.in_flight i) l rest;
                  })
          ]
    ]
step-IsValid event_type o (requeued now) v = requeue-IsValid o now v

pub enqueued-IsValid : (now : ℕ) → IsValid (enqueued now)
enqueued-IsValid now = record {
  bounded = record {
    attempts = omega arith;
    attempts_open = λ opened. omega arith;
    leased = λ closed. refl;
  };
  given = tt;
  copies = tt;
}

pub run-IsValid :
    (event_type : String) (o : Outbox) (es : List Event) → IsValid o → IsValid (run event_type o es)
unfolding run
run-IsValid event_type o [] v = v
run-IsValid event_type o (e ∷ es) v =
    run-IsValid event_type (step event_type o e) es (step-IsValid event_type o e v)

-- Whatever workers claim an event, answer late or stop, and in whatever order, also where it is
-- requeued, which sets the count back to 0, at most twelve attempts are counted, and fewer while the
-- event may still be claimed.
pub run-bounded :
    (event_type : String) (now : ℕ) (es : List Event)
    → ((run event_type (enqueued now) es).row.attempts ≤ 12)
      × (is_open (run event_type (enqueued now) es).row.status ≡ true
          → (run event_type (enqueued now) es).row.attempts < 12)
run-bounded event_type now es =
    let v = run-IsValid event_type (enqueued now) es (enqueued-IsValid now) in
    (v.bounded.attempts, v.bounded.attempts_open)
