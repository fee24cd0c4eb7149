-- ===== src/Delivery/EventOutbox.antt =====
-- eventOutbox.js: the delivery of one stored event by any number of workers. The event's row of
-- outbound_events, as far as delivery reads and writes it, is the record `Row`; times are in
-- milliseconds. A worker claims the row (claim_outbound_events, migrations/025), gets a copy
-- of it with a new lease token, sends the request, and updates the row where it still has that
-- token. What the request came to is an argument (`Answer`), so is the time. A worker may stop
-- between the two; then its claim stays in flight. Each update names one event id, so the loop over
-- a batch acts on each row as here. A client may put the event back in the queue (routes/v1.js). Not modelled: the signing of the body, last_error.
pub mod Validity
pub mod Settled
pub mod Retries
pub mod Tests
use communications_service.Prelude.{
  zero, ℕ, suc, ◌+◌, ◌-◌, ◌*◌, ◌^◌, min, String, Bool, true, false, not, ◌&&◌, ◌||◌, Option, none,
  some, List, [], ◌∷◌, if◌then◌else◌, eqb, ltb, leb,
}
use communications_service.Prelude.Text.{same}

pub data Status : Type 0 where
  pending retrying delivered failed : Status

pub record Row : Type 0 where
  pub status : Status
  pub attempts : ℕ
  pub next_attempt_at : ℕ
  pub lease_token : Option ℕ
  pub lease_expires_at : Option ℕ
  pub delivered_at : Option ℕ

-- The copy of the row that a worker holds.
pub record Claim : Type 0 where
  pub token : ℕ
  pub attempts : ℕ

-- What the request came to: an HTTP status, or an error and whether its `retryable` is false.
pub data Answer : Type 0 where
  response : ℕ → Answer
  threw : (final : Bool) → Answer

abbrev pub max_attempts : ℕ
max_attempts = 12

-- `response.ok`
abbrev pub is_success : Answer → Bool
is_success (response s) = leb 200 s && leb s 299
is_success (threw final) = false

-- `error.retryable === false`
abbrev pub is_final : Answer → Bool
is_final (response s) = not (eqb s 408 || eqb s 425 || eqb s 429 || leb 500 s)
is_final (threw final) = final

pub exhausted : ℕ → Answer → Bool
exhausted attempts answer = leb max_attempts attempts || is_final answer

pub delay_ms : ℕ → ℕ
delay_ms attempts = min 3600000 (5000 * (2 ^ min (attempts - 1) 9))

pub released : Row → Row
released row = record row { lease_token = none; lease_expires_at = none }

-- An action while its dispatch is switched off.
pub put_off : ℕ → Row → Row
unfolding released
put_off now row = released (record row { status = pending; next_attempt_at = now + 60000 })

-- The update that a worker sends after its request.
pub settle : Claim → Answer → ℕ → Row → Row
unfolding released exhausted delay_ms
settle claim answer now row =
    let attempts = suc claim.attempts in
    if is_success answer
    then released (record row { status = delivered; attempts = attempts; delivered_at = some now })
    else released (record row {
      status = if exhausted attempts answer then failed else retrying;
      attempts = attempts;
      next_attempt_at = now + delay_ms attempts;
    })

-- `.eq('lease_token', token)`
abbrev pub holds : Option ℕ → ℕ → Bool
holds none token = false
holds (some t) token = eqb t token

-- `row.type === 'review.action.requested'` and the switch is not 'true'.
pub deferred : (event_type : String) → (dispatch_enabled : Bool) → Bool
deferred event_type dispatch_enabled =
    same event_type "review.action.requested" && not dispatch_enabled

-- One pass of the loop over the claimed rows, at its update.
pub update_row : String → Claim → Bool → Answer → ℕ → Row → Row
unfolding deferred put_off settle
update_row event_type claim dispatch_enabled answer now row =
    if holds row.lease_token claim.token
    then (if deferred event_type dispatch_enabled
        then put_off now row
        else settle claim answer now row)
    else row

abbrev pub is_open : Status → Bool
is_open pending = true
is_open retrying = true
is_open delivered = false
is_open failed = false

abbrev expired : Option ℕ → ℕ → Bool
expired none now = true
expired (some t) now = ltb t now

-- The condition of claim_outbound_events; `active` is the tenant's.
pub claimable : Bool → ℕ → Row → Bool
claimable active now row =
    active && is_open row.status && leb row.next_attempt_at now && expired row.lease_expires_at now

-- The row with the claims whose workers have not updated it yet. `tokens` is the number of lease
-- tokens given so far: gen_random_uuid never gives one twice.
pub record Outbox : Type 0 where
  pub row : Row
  pub in_flight : List Claim
  pub tokens : ℕ

pub data Event : Type 0 where
  claim : (active : Bool) (now : ℕ) → Event
  -- the worker of the i-th claim in flight updates the row
  answered : (i : ℕ) (dispatch_enabled : Bool) (answer : Answer) (now : ℕ) → Event
  -- POST /v1/events/:eventId/requeue
  requeued : (now : ℕ) → Event

pub take_claim : Outbox → ℕ → Outbox
take_claim o now = record {
  row = record o.row { lease_token = some o.tokens; lease_expires_at = some (now + 60000) };
  in_flight = record { token = o.tokens; attempts = o.row.attempts } ∷ o.in_flight;
  tokens = suc o.tokens;
}

-- The update of POST /v1/events/:eventId/requeue (routes/v1.js), whatever the row's status.
pub requeue : ℕ → Row → Row
unfolding released
requeue now row = released (record row { status = pending; attempts = 0; next_attempt_at = now })

pub nth : List Claim → ℕ → Option Claim
nth [] i = none
nth (c ∷ cs) zero = some c
nth (c ∷ cs) (suc i) = nth cs i

pub without : List Claim → ℕ → List Claim
without [] i = []
without (c ∷ cs) zero = cs
without (c ∷ cs) (suc i) = c ∷ without cs i

module _ (event_type : String) where
  pub step : Outbox → Event → Outbox
  unfolding claimable take_claim nth without update_row requeue
  step o (claim active now) = if claimable active now o.row then take_claim o now else o
  step o (answered i dispatch_enabled answer now) = elim (nth o.in_flight i) [
    | none ↦ o
    | some c ↦ record o {
      row = update_row event_type c dispatch_enabled answer now o.row;
      in_flight = without o.in_flight i;
    }
  ]
  step o (requeued now) = record o { row = requeue now o.row }

  pub run : Outbox → List Event → Outbox
  unfolding step
  run o [] = o
  run o (e ∷ es) = run (step o e) es

-- As enqueueEvent inserts it.
abbrev pub enqueued : ℕ → Outbox
enqueued now = record {
  row = record {
    status = pending;
    attempts = 0;
    next_attempt_at = now;
    lease_token = none;
    lease_expires_at = none;
    delivered_at = none;
  };
  in_flight = [];
  tokens = 0;
}
