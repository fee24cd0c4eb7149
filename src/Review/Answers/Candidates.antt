-- ===== src/Review/Answers/Candidates.antt =====
-- operationalIntelligence.js, `visibleCandidates`: the candidates that a scope may see.
use communications_service.Prelude.{
  ℕ, String, Bool, true, false, Option, none, some, List, [], ◌∷◌, ◌≡◌, ◌⊎◌, inl, inr, refl, arith,
  eq_iff, returned, if◌then◌else◌, Bool-cases, Outcome-cases,
}
use communications_service.Prelude.Text.{same, includes}
use communications_service.Access.Scope.{Scope}
use communications_service.Review.Promises.{Communication}
use communications_service.Review.Sessions.{
  Store, Candidate, asking, is_unchanged, review_source_allowed,
}
use communications_service.Review.Sessions.Guards.{
  IsPresent, allowed-IsOpen, review_source_allowed-open,
}
use communications_service.Review.Answers.{is_visible, visible_among, visible_candidates}

-- The row is one of the list.
abbrev IsAmong : Candidate → List Candidate → Type 0
IsAmong c [] = ⊥
IsAmong c (row ∷ rows) = (row ≡ c) ⊎ IsAmong c rows

module _ (parse_date : String → Option ℕ) (is_uuid : String → Bool) (db : Store) where
  -- A candidate of the list that says something, and whose communication is open and unchanged.
  pub record IsPending (scope : Scope) (rows : List Candidate) (id : String) : Type 0 where
    pub candidate : Candidate
    pub named : candidate.id ≡ id
    pub among : IsAmong candidate rows
    pub says : candidate.is_none ≡ false
    pub present :
        IsPresent parse_date is_uuid db scope candidate.communication_id candidate.source_revision

  found-IsPresent :
      (scope : Scope) (row : Candidate) (found : Option Communication)
      → db.ledger.communication row.communication_id ≡ returned found
      → review_source_allowed parse_date is_uuid db found scope row.mention ≡ returned true
      → is_unchanged parse_date is_uuid db found row ≡ true
      → IsPresent parse_date is_uuid db scope row.communication_id row.source_revision
  unfolding is_unchanged review_source_allowed
  found-IsPresent scope row none x h u = cc
  found-IsPresent scope row (some c) x h u = (
    c,
    x,
    allowed-IsOpen parse_date is_uuid db scope c.source
        (review_source_allowed-open parse_date is_uuid db c scope row.mention h),
    ground arith,
  )

  is_visible-IsPresent :
      (scope : Scope) (row : Candidate)
      → is_visible parse_date is_uuid db scope row ≡ returned true
      → (row.is_none ≡ false)
        × IsPresent parse_date is_uuid db scope row.communication_id row.source_revision
  unfolding is_visible asking
  is_visible-IsPresent scope row h =
      elim (Outcome-cases (db.ledger.communication row.communication_id)) [
        | inl (e, x) ↦ absurd (ground arith)
        | inr (found, x) ↦
            elim (Outcome-cases
              (review_source_allowed parse_date is_uuid db found scope row.mention)) [
                | inl (e, y) ↦ absurd (ground arith)
                | inr (allowed, y) ↦
                    let yes : allowed ≡ true = ground arith in
                    (ground arith, found-IsPresent scope row found x (rw yes at y) (ground arith))
              ]
      ]

  include-IsPending :
      (scope : Scope) (row : Candidate) (rows : List Candidate) (ids : List String) (id : String)
      (visible : Bool)
      → is_visible parse_date is_uuid db scope row ≡ returned visible
      → (includes ids id ≡ true → IsPending scope rows id)
      → includes (if visible then row.id ∷ ids else ids) id ≡ true
      → IsPending scope (row ∷ rows) id
  unfolding includes
  include-IsPending scope row rows ids id false v later h =
      let k = later h in
      record {
        candidate = k.candidate;
        named = k.named;
        among = inr k.among;
        says = k.says;
        present = k.present;
      }
  include-IsPending scope row rows ids id true v later h = elim (Bool-cases (same row.id id)) [
    | inl e ↦
        let (says, present) = is_visible-IsPresent scope row v in
        record {
          candidate = row;
          named = (eq_iff row.id id).0 e;
          among = inl refl;
          says = says;
          present = present;
        }
    | inr e ↦
        let k = later (ground arith) in
        record {
          candidate = k.candidate;
          named = k.named;
          among = inr k.among;
          says = k.says;
          present = k.present;
        }
  ]

  visible_among-IsPending :
      (scope : Scope) (rows : List Candidate) (ids : List String) (id : String)
      → visible_among parse_date is_uuid db scope rows ≡ returned ids
      → includes ids id ≡ true
      → IsPending scope rows id
  unfolding visible_among includes
  visible_among-IsPending scope [] ids id h k = absurd (ground arith)
  visible_among-IsPending scope (row ∷ rows) ids id h k =
      elim (Outcome-cases (is_visible parse_date is_uuid db scope row)) [
        | inl (e, x) ↦ absurd (ground arith)
        | inr (visible, x) ↦ elim (Outcome-cases (visible_among parse_date is_uuid db scope rows)) [
          | inl (e, y) ↦ absurd (ground arith)
          | inr (rest, y) ↦
              let made : (if visible then row.id ∷ rest else rest) ≡ ids = ground arith in
              include-IsPending scope row rows rest id visible x
                (visible_among-IsPending scope rows rest id y) (rw made k)
        ]
      ]

  pub visible_candidates-IsPending :
      (scope : Scope) (ids : List String) (id : String)
      → visible_candidates parse_date is_uuid db scope ≡ returned ids
      → includes ids id ≡ true
      → (rows : List Candidate) × (db.candidates ≡ returned rows) × IsPending scope rows id
  unfolding visible_candidates asking
  visible_candidates-IsPending scope ids id h k = elim (Outcome-cases db.candidates) [
    | inl (e, x) ↦ absurd (ground arith)
    | inr (rows, x) ↦ (rows, x, visible_among-IsPending scope rows ids id (ground arith) k)
  ]
