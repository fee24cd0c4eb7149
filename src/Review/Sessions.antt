-- ===== src/Review/Sessions.antt =====
-- reviewEngine.js, `session` and `advance`, with `visibleSource` and `reviewSourceAllowed` of
-- operationalIntelligence.js: a stored review session is given out only while everything in its
-- queue may still be shown. The queries are a record of what they answer. Not modelled: the text of
-- the briefing, and the procedure that refreshes a session, whose answer is a parameter.
pub mod Guards
pub mod Tests
use communications_service.Prelude.{
  ℕ, ◌+◌, String, Bool, true, false, not, ◌&&◌, ◌||◌, Option, none, some, List, [], ◌∷◌, any, eqb,
  if◌then◌else◌, Outcome, thrown, returned, ◌>>=◌, ◌>>◌, ensure,
}
use communications_service.Prelude.Text.{same?, truthy}
use communications_service.Access.Scope.{Scope}
use communications_service.Access.MemorySafety.{Source, source_allowed}
use communications_service.Access.ReviewIdentity.{Refusal, current_session_scope}
use communications_service.Review.Promises.{Communication, Queries, Shown, source_of, read_promise}

-- Why a request about a session is refused; a query that fails gives its message.
pub data Denial : Type 0 where
  failed : String → Denial
  identity : Refusal → Denial
  invalid_400 : String → Denial
  not_found_404 : String → Denial
  changed_409 : String → Denial

pub data ItemStatus : Type 0 where
  pending resolved deferred stale : ItemStatus

-- An entry of `review_queue`.
pub record Item : Type 0 where
  pub id : String
  pub status : ItemStatus
  pub promise_id : Option String
  pub object_id : Option String
  pub candidate_id : Option String
  pub requires_clarification : Bool
  pub question : String

pub data Stage : Type 0 where
  preparing briefing review next_actions summary completed : Stage

-- A row of review_sessions; `answered` are the request ids of its responses.
pub record Session : Type 0 where
  pub scope : Scope
  pub stage : Stage
  pub revision : ℕ
  pub review_queue : List Item
  pub answered : List String

-- What was found in a communication; `people` are its actor and counterparties.
pub record Mention : Type 0 where
  pub target_id : Option String
  pub people : List (Option String)

-- Rows of operational_objects and of operational_candidates.
pub record Object : Type 0 where
  pub communication_id : String
  pub source_revision : ℕ
  pub is_open : Bool
  pub mention : Mention

pub record Candidate : Type 0 where
  pub id : String
  pub communication_id : String
  pub source_revision : ℕ
  pub is_none : Bool
  pub target_object_id : Option String
  pub mention : Mention

pub record Store : Type 0 where
  pub ledger : Queries
  pub stored : String → String → Outcome String (Option Session)
  pub object : String → Outcome String (Option Object)
  pub candidate : String → Outcome String (Option Candidate)
  pub candidates : Outcome String (List Candidate)
  pub contact : String → Outcome String Bool
  pub local_person : Outcome String (Option String)
  pub refreshed : String → String → Outcome String Session
  pub brief : Scope → Outcome String (Unit {0})
  pub actions : Outcome String (Unit {0})
  -- HYPERFLOW_EVENT_URL of the environment
  pub event_url : Option String

-- A query of the request.
unfoldable pub asking {ℓ} : {A : Type ℓ} → Outcome String A → Outcome Denial A
asking (thrown e) = thrown (failed e)
asking (returned a) = returned a

-- `{ ...scope, person_id: undefined }`
abbrev pub anyone : Scope → Scope
anyone scope = record scope { person_id = none }

module _ (parse_date : String → Option ℕ) (is_uuid : String → Bool) (db : Store) where
  unfoldable pub read : (id : String) → Scope → Outcome Denial (Option Shown)
  read id scope = asking (read_promise parse_date db.ledger is_uuid id scope)

  -- `visibleSource`
  unfoldable pub visible_source : (id : String) → Scope → Outcome Denial Communication
  visible_source id scope = asking (db.ledger.communication id) >>= (λ found. elim found [
    | none ↦ thrown (not_found_404 "Communication unavailable")
    | some c ↦
        if source_allowed parse_date (some c.source) scope
        then returned c
        else thrown (not_found_404 "Communication unavailable")
  ])

  names_person : (person : Option String) → Communication → Mention → Bool
  names_person person c item =
      same? c.source.person_id person
      || same? c.local_person_id person
      || any (λ p. same? p person) item.people

  -- For the person of the scope, after the source itself was allowed.
  unfoldable pub allowed_for_person : Communication → Scope → Mention → Outcome Denial Bool
  unfolding names_person read
  allowed_for_person c scope item =
      if truthy item.target_id
      then elim item.target_id [
        | none ↦ returned false
        | some target ↦
            read target scope >>= (λ p. returned (elim p [ none ↦ false | some s ↦ true ]))
      ]
      else if names_person scope.person_id c item
      then returned true
      else asking db.local_person >>= (λ local. returned (same? local scope.person_id))

  -- `reviewSourceAllowed`
  unfoldable pub review_source_allowed :
      Option Communication → Scope → Mention → Outcome Denial Bool
  unfolding allowed_for_person
  review_source_allowed none scope item = returned false
  review_source_allowed (some c) scope item =
      if not (source_allowed parse_date (some c.source) (anyone scope))
      then returned false
      else if not (truthy scope.person_id)
      then returned true
      else allowed_for_person c scope item

  unfoldable pub check_promise : Scope → (id : String) → Outcome Denial (Unit {0})
  unfolding read
  check_promise scope id = read id scope >>= (λ p.
      ensure (elim p [ none ↦ false | some s ↦ s.source_current ])
        (changed_409 "Review evidence is no longer available; start a fresh session"))

  unfoldable pub check_object : Scope → (id : String) → Outcome Denial (Unit {0})
  unfolding visible_source
  check_object scope id = asking (db.object id) >>= (λ found. elim found [
    | none ↦ thrown (changed_409 "Expected output unavailable")
    | some o ↦ visible_source o.communication_id (anyone scope) >>= (λ c.
        ensure (eqb c.promise_revision o.source_revision) (changed_409 "Expected output changed"))
  ])

  unfoldable pub is_unchanged : Option Communication → Candidate → Bool
  is_unchanged none item = false
  is_unchanged (some c) item = eqb c.promise_revision item.source_revision

  unfoldable pub check_candidate : Scope → (id : String) → Outcome Denial (Unit {0})
  unfolding review_source_allowed is_unchanged
  check_candidate scope id = asking (db.candidate id) >>= (λ found. elim found [
    | none ↦ thrown (changed_409 "Review evidence changed; start a fresh session")
    | some item ↦ asking (db.ledger.communication item.communication_id) >>= (λ c.
        review_source_allowed c scope item.mention >>= (λ allowed.
          ensure (allowed && is_unchanged c item)
            (changed_409 "Review evidence changed; start a fresh session")))
  ])

  -- A check of an id of the item, if it has one.
  unfoldable pub checked :
      Option String → (String → Outcome Denial (Unit {0})) → Outcome Denial (Unit {0})
  checked none check = returned tt
  checked (some id) check = if truthy (some id) then check id else returned tt

  -- One turn of the loop over the queue.
  unfoldable pub check_item : Scope → Item → Outcome Denial (Unit {0})
  unfolding checked check_promise check_object check_candidate
  check_item scope q =
      checked q.promise_id (check_promise scope)
      >> checked q.object_id (check_object scope)
      >> checked q.candidate_id (check_candidate scope)

  unfoldable pub check_queue : Scope → List Item → Outcome Denial (Unit {0})
  unfolding check_item
  check_queue scope [] = returned tt
  check_queue scope (q ∷ qs) = check_item scope q >> check_queue scope qs

  unfoldable pub own_scope : Session → Scope → Outcome Denial Scope
  own_scope s scope = elim (current_session_scope s.scope scope) [
    | thrown r ↦ thrown (identity r)
    | returned narrowed ↦ returned narrowed
  ]

  -- `session`: what it returns is the refreshed row.
  unfoldable pub session : (id owner : String) → Scope → Outcome Denial Session
  unfolding own_scope check_queue
  session id owner scope = asking (db.stored id owner) >>= (λ found. elim found [
    | none ↦ thrown (not_found_404 "Session unavailable")
    | some s ↦ do
      narrowed ← own_scope s scope
      u ← check_queue narrowed s.review_queue
      refreshed ← asking (db.refreshed id owner)
      v ← asking (db.brief refreshed.scope)
      w ← asking db.actions
      returned refreshed
  ])

is_pending : Item → Bool
is_pending q = elim q.status [ pending ↦ true | _ ↦ false ]

-- The stage that `advance` goes on to.
unfoldable pub next_stage : Session → Option Stage
unfolding is_pending
next_stage s = elim s.stage [
  | briefing ↦ some (if any is_pending s.review_queue then review else next_actions)
  | next_actions ↦ some summary
  | summary ↦ some completed
  | _ ↦ none
]

-- The stored row, at the time of the update; the update asks for the revision that was read.
unfoldable pub set_stage : (read : ℕ) → Stage → Session → Option Session
set_stage read stage row =
    if eqb row.revision read then some (record row { stage = stage; revision = read + 1 }) else none

-- `advance` from the session that was read, on the row that is stored by then.
unfoldable pub advance : (expected_revision : ℕ) (s row : Session) → Outcome Denial Session
unfolding next_stage set_stage
advance expected_revision s row = elim (next_stage s) [
  | none ↦ thrown (changed_409 "Answer or defer pending review items first")
  | some stage ↦
      if not (eqb expected_revision s.revision)
      then thrown (changed_409 "Session changed")
      else elim (set_stage s.revision stage row) [
        | none ↦ thrown (changed_409 "Session changed")
        | some updated ↦ returned updated
      ]
]
