-- ===== src/Delivery/Outbound.antt =====
-- One message or call to be sent once: reserveOutbound and markOutbound of outboundOperations.js,
-- dispatchTwilio of outboundReadiness.js, and the routes that use them: POST /messages and /calls of
-- v1.js, POST /sms and /call of index.js. The row of outbound_operations for one tenant, type and
-- Idempotency-Key is `World.row`; `creates` counts the requests to Twilio for it. A request is an
-- `Attempt` that is cut where the code awaits, and any number of attempts may interleave.
-- The replies keep their status; the bodies of errors are left out. The validation of the
-- request before the reservation is left out too.
pub mod Once
pub mod Replays
pub mod Tests
use communications_service.Prelude.{
  ℕ, zero, suc, ◌+◌, ◌-◌, String, Bool, true, false, not, ◌&&◌, ◌||◌, Option, none, some, List, [],
  ◌∷◌, ltb, if◌then◌else◌, Outcome, thrown, returned,
}
use communications_service.Prelude.Text.{same, truthy}
use communications_service.Delivery.Readiness.{
  Health, assert_outbound_ready, ClientError, is_rejection,
}

pub data Status : Type 0 where
  reserved provider_sent completed failed : Status

-- A row of outbound_operations.
pub record Operation : Type 0 where
  pub status : Status
  pub request_hash : String
  pub communication_id : String
  pub provider_id : Option String
  pub response : Option String
  pub has_completed_at : Bool
  pub created_at : ℕ

pub record World : Type 0 where
  pub row : Option Operation
  pub creates : ℕ

-- The routes: only POST /calls of v1.js prepares its configuration before the call is placed.
pub data Route : Type 0 where
  v1_messages v1_calls sms call : Route

pub is_voice : Route → Bool
is_voice v1_messages = false
is_voice v1_calls = true
is_voice sms = false
is_voice call = true

pub prepares : Route → Bool
prepares v1_messages = false
prepares v1_calls = true
prepares sms = false
prepares call = false

-- What a request brings to the reservation.
pub record Request : Type 0 where
  pub route : Route
  pub key : Option String
  pub tenant : Option String
  pub request_hash : String
  pub communication_id : String
  pub model : Option String

pub data Reply : Type 0 where
  key_required_400 conflict_409 in_progress_409 reconcile_409 rejected_422 : Reply
  not_ready_503 failed_502 : Reply
  replayed_200 : Option String → Reply
  created_201 : String → Reply

-- Whether the operation was sent before, by another request; its `provider_id` may be missing.
pub data Sent : Type 0 where
  fresh : Sent
  already : (sid : Option String) → Sent

-- Where a request stands: what it awaits next.
pub data Attempt : Type 0 where
  inspecting : Request → Attempt
  reserving : Request → Attempt
  preparing : Request → Sent → Attempt
  dispatching : Request → Attempt
  refusing : Request → (receipt : String) → Attempt
  recording : Request → (sid : String) → Attempt
  storing : Request → (sid : Option String) → Attempt
  completing : Request → (response : String) → Attempt
  replied : Reply → Attempt

-- What an await comes to. An update or a reservation whose answer is lost may have been made all the
-- same.
pub data Input : Type 0 where
  inspected : (broken : Bool) → Health → Input
  claimed : (broken : Bool) → (now : ℕ) → Input
  claim_lost : (now : ℕ) → Input
  prepared : (done : Bool) → Input
  created : (sid : String) → Input
  -- with the receipt that `dispatchTwilio` makes of the error
  refused : ClientError → (receipt : String) → Input
  updated : Input
  not_updated : (made : Bool) → Input
  stored : (response : String) → Input
  not_stored : Input

-- `reserveOutbound` up to its first query.
pub begin : Request → Attempt
begin q =
    if not (truthy q.key)
    then replied key_required_400
    else if not (truthy q.tenant)
    then replied failed_502
    else inspecting q

-- After the query for an existing operation.
pub inspect : World → Request → (broken : Bool) → Health → Attempt
inspect w q broken h = if broken then replied failed_502 else elim w.row [
  | some op ↦ reserving q
  | none ↦ elim (assert_outbound_ready (is_voice q.route) q.model h) [
    | thrown e ↦ replied not_ready_503
    | returned u ↦ reserving q
  ]
]

-- The row that reserve_outbound_operation inserts.
pub reservation : Request → (now : ℕ) → Operation
reservation q now = record {
  status = reserved;
  request_hash = q.request_hash;
  communication_id = q.communication_id;
  provider_id = none;
  response = none;
  has_completed_at = false;
  created_at = now;
}

-- The status of the operation decides whether the route asks Twilio.
pub dispatch : Request → Sent → Attempt
dispatch q fresh = dispatching q
dispatch q (already sid) = storing q sid

pub proceed : Request → Sent → Attempt
unfolding dispatch
proceed q sent = if prepares q.route then preparing q sent else dispatch q sent

-- An operation that another request has made.
pub revisit : Request → Operation → (now : ℕ) → Attempt
unfolding proceed
revisit q op now = elim op.status [
  | reserved ↦
      if ltb (now - op.created_at) 120000 then replied in_progress_409 else replied reconcile_409
  | failed ↦ replied rejected_422
  | completed ↦ replied (replayed_200 op.response)
  | provider_sent ↦ proceed q (already op.provider_id)
]

-- reserve_outbound_operation and what `reserveOutbound` makes of its answer.
pub reserve : World → Request → (broken : Bool) → (now : ℕ) → World × Attempt
unfolding reservation proceed revisit
reserve w q broken now = if broken then (w, replied failed_502) else elim w.row [
  | none ↦ (record w { row = some (reservation q now) }, proceed q fresh)
  | some op ↦
      if same op.request_hash q.request_hash
      then (w, revisit q op now)
      else (w, replied conflict_409)
]

-- reserve_outbound_operation has committed, and its answer is lost.
pub reserve_lost : World → Request → (now : ℕ) → World
unfolding reservation
reserve_lost w q now = record w {
  row = elim w.row [ none ↦ some (reservation q now) | some op ↦ some op ];
}

-- `markOutbound`
pub mark : (Operation → Operation) → World → World
mark f w = record w { row = elim w.row [ none ↦ none | some op ↦ some (f op) ] }

-- The answer of Twilio's client, as dispatchTwilio reads it.
pub rejected : Request → ClientError → (receipt : String) → Attempt
rejected q e receipt = if is_rejection e then refusing q receipt else replied reconcile_409

pub mark_sent : String → Operation → Operation
mark_sent sid op = record op { status = provider_sent; provider_id = some sid }

pub mark_failed : (receipt : String) → Operation → Operation
mark_failed receipt op = record op {
  status = failed;
  response = some receipt;
  has_completed_at = true;
}

pub mark_completed : String → Operation → Operation
mark_completed response op = record op {
  status = completed;
  response = some response;
  has_completed_at = true;
}

-- One await of a request, on an input that answers it; any other input leaves it as it is.
pub advance : World → Attempt → Input → World × Attempt
unfolding inspect reserve reserve_lost dispatch mark rejected mark_sent mark_failed mark_completed
advance w (inspecting q) (inspected broken h) = (w, inspect w q broken h)
advance w (reserving q) (claimed broken now) = reserve w q broken now
advance w (reserving q) (claim_lost now) = (reserve_lost w q now, replied failed_502)
advance w (preparing q sent) (prepared done) =
    (w, if done then dispatch q sent else replied failed_502)
advance w (dispatching q) (created sid) = (w, recording q sid)
advance w (dispatching q) (refused e receipt) = (w, rejected q e receipt)
advance w (refusing q receipt) updated = (mark (mark_failed receipt) w, replied rejected_422)
advance w (refusing q receipt) (not_updated made) =
    (if made then mark (mark_failed receipt) w else w, replied reconcile_409)
advance w (recording q sid) updated = (mark (mark_sent sid) w, storing q (some sid))
advance w (recording q sid) (not_updated made) =
    (if made then mark (mark_sent sid) w else w, replied failed_502)
advance w (storing q sid) (stored response) = (w, completing q response)
advance w (storing q sid) not_stored = (w, replied failed_502)
advance w (completing q response) updated =
    (mark (mark_completed response) w, replied (created_201 response))
advance w (completing q response) (not_updated made) =
    (if made then mark (mark_completed response) w else w, replied failed_502)
advance w a input = (w, a)

-- The request to Twilio is made as the attempt begins to wait for its answer.
pub is_dispatching : Attempt → Bool
is_dispatching (dispatching q) = true
is_dispatching _ = false

pub move : World → Attempt → Input → World × Attempt
unfolding advance is_dispatching
move w a input =
    let (w', a') = advance w a input in
    if is_dispatching a' && not (is_dispatching a)
    then (record w' { creates = suc w'.creates }, a')
    else (w', a')

-- All requests for one key, each where it stands.
pub record System : Type 0 where
  pub world : World
  pub attempts : List Attempt

pub data Event : Type 0 where
  arrives : Request → Event
  resumes : (i : ℕ) → Input → Event

pub move_at : World → List Attempt → (i : ℕ) → Input → World × List Attempt
unfolding move
move_at w [] i input = (w, [])
move_at w (a ∷ rest) zero input = let (w', a') = move w a input in (w', a' ∷ rest)
move_at w (a ∷ rest) (suc i) input = let (w', rest') = move_at w rest i input in (w', a ∷ rest')

pub step : System → Event → System
unfolding begin move_at
step s (arrives q) = record s { attempts = begin q ∷ s.attempts }
step s (resumes i input) =
    let (w, attempts) = move_at s.world s.attempts i input in
    record { world = w; attempts = attempts }

pub run : System → List Event → System
unfolding step
run s [] = s
run s (e ∷ es) = run (step s e) es

abbrev pub unused : System
unused = record { world = record { row = none; creates = 0 }; attempts = [] }
