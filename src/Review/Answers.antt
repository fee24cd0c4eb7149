-- ===== src/Review/Answers.antt =====
-- reviewEngine.js, `respond`: the answer to an item of a review session, up to the procedure that
-- records it (respond_operational_review, migrations/031), whose arguments are `Commit`.
pub mod Corrected
pub mod Candidates
pub mod Committed
pub mod Tests
use communications_service.Prelude.{
  ℕ, String, Bool, true, false, not, ◌&&◌, ◌||◌, Option, none, some, List, [], ◌∷◌, any, find, eqb,
  ltb, leb, length, if◌then◌else◌, Outcome, thrown, returned, ◌>>=◌, ◌>>◌, ensure,
}
use communications_service.Prelude.Text.{same, includes, has_text, truthy}
use communications_service.Prelude.Units.{units, has_zone}
use communications_service.Storage.Json.{Value, Fields, undefined, text, get, truthy_value}
use communications_service.Access.Scope.{Scope}
use communications_service.Review.Promises.{Communication}
use communications_service.Review.Sessions.{
  Denial, invalid_400, not_found_404, changed_409, Store, Item, Session, Candidate, Object, anyone,
  asking, read, visible_source, review_source_allowed, is_unchanged, checked, session,
}
use communications_service.Review.Corrections.{string_of, validate_correction}

pub data Intent : Type 0 where
  accept reject defer partial correct snooze : Intent

-- A confidence, as JSON writes it, and whether it is a finite number of at least 0.85.
pub record Confidence : Type 0 where
  pub digits : String
  pub is_sure : Bool

-- `intent` is none where it is none of the six.
pub record Input : Type 0 where
  pub review_item_id : String
  pub utterance : Value
  pub request_id : Value
  pub intent : Option Intent
  pub confidence : Option Confidence
  pub requires_clarification : Bool
  pub details : Fields
  pub expected_revision : Value

-- `p_details` is `details` with `confidence`, if there is one, as its entry of that name; the
-- destination is where the events of the change go.
pub record Commit : Type 0 where
  pub item_id : String
  pub intent : Intent
  pub utterance : Value
  pub request_id : Value
  pub details : Fields
  pub confidence : Option Confidence
  pub destination : Option String
  pub revision : Value

-- A question back, or what is recorded.
pub data Reply : Type 0 where
  clarify : String → Reply
  committed : Commit → Reply

-- A text that is not blank, of at most `most` units.
unfoldable pub is_filled : (most : ℕ) → Value → Bool
is_filled most (text s) = has_text s && leb (length (units s)) most
is_filled most _ = false

-- The answer is no proposal: it is one of the six decisions, and sure enough.
unfoldable pub is_explicit : Input → Bool
is_explicit input =
    (elim input.confidence [ none ↦ true | some c ↦ c.is_sure ])
    && not input.requires_clarification
    && elim input.intent [ none ↦ false | some i ↦ true ]

unfoldable pub is_accept : Intent → Bool
is_accept accept = true
is_accept _ = false

unfoldable pub is_snooze : Intent → Bool
is_snooze snooze = true
is_snooze _ = false

unfoldable pub is_correct : Intent → Bool
is_correct correct = true
is_correct _ = false

module _ (parse_date : String → Option ℕ) (is_uuid : String → Bool) (db : Store) where
  -- An instant with a time zone that is still to come.
  unfoldable pub is_future : (now : ℕ) → Value → Bool
  is_future now v =
      truthy_value v
      && has_zone (string_of v)
      && elim (parse_date (string_of v)) [ none ↦ false | some t ↦ ltb now t ]

  unfoldable pub is_visible_origin : Scope → Object → Outcome Denial Bool
  is_visible_origin scope o =
      visible_source parse_date is_uuid db o.communication_id (anyone scope) >>= (λ c.
        if not (eqb c.promise_revision o.source_revision)
        then returned false
        else review_source_allowed parse_date is_uuid db (some c) scope o.mention)

  -- The expected output that the candidate would settle.
  unfoldable pub has_visible_output : Scope → Candidate → Outcome Denial Bool
  unfolding is_visible_origin
  has_visible_output scope row = elim row.target_object_id [
    | none ↦ returned true
    | some id ↦
        if not (truthy (some id))
        then returned true
        else asking (db.object id) >>= (λ found. elim found [
          | none ↦ returned false
          | some o ↦ if o.is_open then is_visible_origin scope o else returned false
        ])
  ]

  unfoldable pub has_visible_target : Scope → Candidate → Outcome Denial Bool
  has_visible_target scope row = elim row.mention.target_id [
    | none ↦ returned true
    | some id ↦
        if not (truthy (some id))
        then returned true
        else read parse_date is_uuid db id scope
          >>= (λ p. returned (elim p [ none ↦ false | some s ↦ true ]))
  ]

  -- One turn of the loop of `visibleCandidates`.
  unfoldable pub is_visible : Scope → Candidate → Outcome Denial Bool
  unfolding has_visible_output has_visible_target
  is_visible scope row = asking (db.ledger.communication row.communication_id) >>= (λ c.
      if row.is_none
      then returned false
      else review_source_allowed parse_date is_uuid db c scope row.mention >>= (λ allowed.
        if not (allowed && is_unchanged parse_date is_uuid db c row)
        then returned false
        else has_visible_output scope row
          >>= (λ output. if output then has_visible_target scope row else returned false)))

  unfoldable pub visible_among : Scope → List Candidate → Outcome Denial (List String)
  unfolding is_visible
  visible_among scope [] = returned []
  visible_among scope (row ∷ rows) = do
    visible ← is_visible scope row
    rest ← visible_among scope rows
    returned (if visible then row.id ∷ rest else rest)

  -- `visibleCandidates`, by their ids.
  unfoldable pub visible_candidates : Scope → Outcome Denial (List String)
  unfolding visible_among
  visible_candidates scope = asking db.candidates >>= (λ rows. visible_among scope rows)

  unfoldable pub promise_readable : Scope → (id : String) → Outcome Denial (Unit {0})
  promise_readable scope id = read parse_date is_uuid db id scope >>= (λ p.
      ensure (elim p [ none ↦ false | some s ↦ true ]) (not_found_404 "Promise unavailable"))

  unfoldable pub output_current : Scope → (id : String) → Outcome Denial (Unit {0})
  output_current scope id = asking (db.object id) >>= (λ found. elim found [
    | none ↦ thrown (not_found_404 "Expected output unavailable")
    | some o ↦ visible_source parse_date is_uuid db o.communication_id (anyone scope) >>= (λ c.
        ensure (eqb c.promise_revision o.source_revision)
          (changed_409 "Expected output source changed"))
  ])

  answered_before : Session → Value → Bool
  answered_before s (text id) = includes s.answered id
  answered_before s _ = false

  -- A repeated answer need not find its candidate pending.
  unfoldable pub candidate_current :
      Session → (request_id : Value) → (id : String) → Outcome Denial (Unit {0})
  unfolding visible_candidates answered_before
  candidate_current s request_id id = visible_candidates s.scope >>= (λ ids.
      ensure (includes ids id || answered_before s request_id)
        (changed_409 "Evidence changed; start a fresh review"))

  unfoldable pub check_evidence : Session → Item → (request_id : Value) → Outcome Denial (Unit {0})
  unfolding promise_readable output_current candidate_current
  check_evidence s q request_id =
      checked parse_date is_uuid db q.promise_id (promise_readable s.scope)
      >> checked parse_date is_uuid db q.object_id (output_current s.scope)
      >> checked parse_date is_uuid db q.candidate_id (candidate_current s request_id)

  unfoldable pub decide : (now : ℕ) → Session → Item → Input → Intent → Outcome Denial Reply
  unfolding check_evidence is_future
  decide now s q input intent = do
    a ←
        ensure (not (is_snooze intent) || is_future now (get "snoozed_until" input.details))
          (invalid_400 "Resolve a future snooze time including timezone")
    b ←
        (if is_correct intent
          then validate_correction parse_date is_uuid db q input.details s.scope
          else returned tt)
    c ← check_evidence s q input.request_id
    returned (
        committed (record {
          item_id = input.review_item_id;
          intent = intent;
          utterance = input.utterance;
          request_id = input.request_id;
          details = input.details;
          confidence = input.confidence;
          destination = if truthy db.event_url then db.event_url else none;
          revision = input.expected_revision;
        }))

  -- From the item on.
  unfoldable pub answer : (now : ℕ) → Session → Item → Input → Outcome Denial Reply
  unfolding is_filled is_explicit decide
  answer now s q input =
      if not (is_filled 4000 input.utterance && is_filled 300 input.request_id)
      then thrown (invalid_400 "utterance and request_id required")
      else if not (is_explicit input)
      then returned (clarify "Please confirm accept, reject, or defer.")
      else elim input.intent [
        | none ↦ returned (clarify "Please confirm accept, reject, or defer.")
        | some intent ↦
            if q.requires_clarification && is_accept intent
            then returned (clarify "Which terms should change? Provide an explicit correction.")
            else decide now s q input intent
      ]

  -- `respond`, before the answer is recorded.
  unfoldable pub respond : (now : ℕ) → (id owner : String) → Input → Scope → Outcome Denial Reply
  unfolding answer
  respond now id owner input scope = session parse_date is_uuid db id owner scope >>= (λ s.
      elim (find (λ q. same q.id input.review_item_id) s.review_queue) [
        | none ↦ thrown (not_found_404 "Review item unavailable")
        | some q ↦ answer now s q input
      ])
