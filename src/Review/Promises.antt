-- ===== src/Review/Promises.antt =====
-- promiseLedger.js, `readPromise` without the history: which promise, and which of its evidence, may
-- be shown under a scope. The queries are a record of what they answer, or of the message with which
-- they fail. `is_uuid` is the pattern of an id, `parse_date` is Date.parse, none for NaN.
pub mod Open
pub mod Visible
pub mod Tests
use communications_service.Prelude.{
  ℕ, String, Bool, true, false, not, ◌&&◌, ◌||◌, Option, none, some, List, [], ◌∷◌, ◌++◌, map, any,
  find, keep, eqb, if◌then◌else◌, Outcome, thrown, returned, ◌>>=◌,
}
use communications_service.Prelude.Text.{same, same?, truthy}
use communications_service.Access.Scope.{Scope}
use communications_service.Access.MemorySafety.{
  Source, includes?, listed, participant, source_allowed,
}

-- A row of communications.
pub record Communication : Type 0 where
  pub communication_id : String
  pub promise_revision : ℕ
  pub local_person_id : Option String
  pub source : Source

-- A row of communication_commitments; the parties are the person ids of both sides.
pub record Row : Type 0 where
  pub deleted : Bool
  pub communication_id : Option String
  pub external_project_id : Option String
  pub thread_id : Option String
  pub project_id : Option String
  pub created_at : Option String
  pub is_manual : Bool
  pub in_ledger : Bool
  pub source_revision : ℕ
  pub parties : List (Option String)

-- A row of promise_evidence; `source` is the snapshot that it keeps.
pub record Evidence : Type 0 where
  pub communication_id : Option String
  pub by_human : Bool
  pub active : Bool
  pub source_revision : ℕ
  pub source : Option Source

pub record Queries : Type 0 where
  pub promise : String → Outcome String (Option Row)
  pub communication : String → Outcome String (Option Communication)
  pub communications : List String → Outcome String (List Communication)
  pub evidence : String → Outcome String (List Evidence)
  pub people : List String → Outcome String (Unit {0})

pub record Shown : Type 0 where
  pub row : Row
  pub evidence : List Evidence
  pub source_current : Bool

-- The source of a promise without a communication.
unfoldable pub manual_source : Row → Source
manual_source row = record {
  memory_eligible = true;
  retracted = false;
  intake_pending = false;
  disposition = none;
  channel = none;
  voice_excluded = false;
  marked_private = false;
  visibility = none;
  project_id = row.project_id;
  external_project_id = row.external_project_id;
  thread_id = row.thread_id;
  person_id = none;
  contact_id = none;
  calendar_event_id = none;
  occurred_at = row.created_at;
}

-- `audienceSource`
unfoldable pub audience_source : Row → Source → Source
audience_source row source = record source {
  project_id = row.project_id;
  thread_id = row.thread_id;
  external_project_id = row.external_project_id;
}

-- A source that no project has, of the person whose unassigned messages the scope takes in.
unfoldable pub is_unassigned : Source → Scope → Bool
is_unassigned source scope =
    not (truthy source.project_id)
    && not (truthy source.external_project_id)
    && truthy scope.unassigned_person_id
    && same? (participant source) scope.unassigned_person_id
    && not (truthy scope.external_project_id)

-- `sources.find(s => s.communication_id === e.communication_id)`
unfoldable pub cited : List Communication → Option String → Option Communication
cited sources none = none
cited sources (some id) = find (λ s. same s.communication_id id) sources

unfoldable pub source_of : Option Communication → Option Source
source_of none = none
source_of (some c) = some c.source

-- The filter of `current`.
unfoldable pub is_current : List Communication → Evidence → Bool
is_current sources e =
    e.active
    && any
        (λ s.
          same? (some s.communication_id) e.communication_id
          && eqb s.promise_revision e.source_revision)
        sources

unfoldable pub some_evidence : List Evidence → Bool
some_evidence [] = false
some_evidence (e ∷ es) = true

-- The ids that the evidence cites.
pub refs : List Evidence → List String
refs [] = []
refs (e ∷ es) =
    let rest = refs es in
    elim e.communication_id [ none ↦ rest | some id ↦ if truthy (some id) then id ∷ rest else rest ]

-- The ids of the parties.
pub person_ids : List (Option String) → List String
person_ids [] = []
person_ids (p ∷ ps) =
    let rest = person_ids ps in
    elim p [ none ↦ rest | some id ↦ if truthy (some id) then id ∷ rest else rest ]

unfoldable pub takes_part : Scope → Row → Bool
takes_part scope row = any (λ person. same? person scope.person_id) row.parties

unfoldable pub source_is_current : Row → Option ℕ → (current : List Evidence) → Bool
unfolding some_evidence
source_is_current row revision current =
    if row.is_manual || not row.in_ledger
    then true
    else some_evidence current
      && elim revision [ none ↦ false | some r ↦ eqb row.source_revision r ]

-- A query for a list of ids, which is left out where there are none.
pub queried {ℓ} :
    {A : Type ℓ} → List String → A → (List String → Outcome String A) → Outcome String A
queried [] empty query = returned empty
queried (id ∷ ids) empty query = query (id ∷ ids)

module _ (parse_date : String → Option ℕ) where
  -- `allowedSource`
  unfoldable pub allowed_source : Source → Scope → Bool
  unfolding is_unassigned
  allowed_source source scope = source_allowed parse_date (some source) (record scope {
    person_id = none;
    allowed_project_ids = if is_unassigned source scope then none else scope.allowed_project_ids;
  })

  allowed_source? : Option Source → Scope → Bool
  unfolding allowed_source
  allowed_source? none scope = false
  allowed_source? (some source) scope = allowed_source source scope

  unfoldable pub audience_allowed : Row → Option Source → Scope → Bool
  unfolding allowed_source audience_source
  audience_allowed row none scope = false
  audience_allowed row (some source) scope = allowed_source (audience_source row source) scope

  -- The filter of `visible`.
  unfoldable pub evidence_allowed : Row → List Communication → Scope → Evidence → Bool
  unfolding audience_allowed cited source_of
  evidence_allowed row sources scope e =
      (not (truthy e.communication_id) && e.by_human)
      || (audience_allowed row e.source scope
          && audience_allowed row (source_of (cited sources e.communication_id)) scope)

  unfoldable pub shown : Scope → Row → Option ℕ → List Communication → List Evidence → Option Shown
  unfolding evidence_allowed is_current some_evidence takes_part source_is_current
  shown scope row revision sources evidence =
      let visible = keep (evidence_allowed row sources scope) evidence in
      if some_evidence evidence && not (some_evidence visible)
      then none
      else if truthy scope.person_id && not (takes_part scope row)
      then none
      else some (record {
        row = row;
        evidence = visible;
        source_current = source_is_current row revision (keep (is_current sources) visible);
      })

  module _ (q : Queries) where
    -- The row's own source, none where its communication is gone, with the communication's revision.
    unfoldable pub own_source : Row → Outcome String (Option (Source × Option ℕ))
    unfolding manual_source
    own_source row = elim row.communication_id [
      | none ↦ returned (some (manual_source row, none))
      | some id ↦
          if truthy (some id)
          then q.communication id >>= (λ c. returned (elim c [
            | none ↦ none
            | some found ↦ some (found.source, some found.promise_revision)
          ]))
          else returned (some (manual_source row, none))
    ]

    unfoldable pub read_evidence :
        Scope → (id : String) → Row → (revision : Option ℕ) → Outcome String (Option Shown)
    unfolding refs person_ids queried shown
    read_evidence scope id row revision = do
      evidence ← q.evidence id
      sources ← queried (refs evidence) [] q.communications
      u ← queried (person_ids row.parties) tt q.people
      returned (shown scope row revision sources evidence)

    unfoldable pub read_row : Scope → (id : String) → Row → Outcome String (Option Shown)
    unfolding own_source read_evidence allowed_source audience_source
    read_row scope id row = own_source row >>= (λ own. elim own [
      | none ↦ returned none
      | some (source, revision) ↦
          if allowed_source (audience_source row source) scope
            && listed scope.allowed_project_ids row.external_project_id
          then read_evidence scope id row revision
          else returned none
    ])

    -- `readPromise`
    unfoldable pub read_promise :
        (is_uuid : String → Bool) → (id : String) → Scope → Outcome String (Option Shown)
    unfolding read_row
    read_promise is_uuid id scope =
        if not (is_uuid id)
        then thrown "Invalid promise ID"
        else q.promise id >>= (λ found. elim found [
          | none ↦ returned none
          | some row ↦
              if row.deleted && not scope.include_deleted
              then returned none
              else read_row scope id row
        ])
