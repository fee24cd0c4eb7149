-- ===== src/Review/Sessions/Guards.antt =====
-- reviewEngine.js, `session` and `advance`: what a caller gets, and who wins.
use communications_service.Prelude.{
  ℕ, suc, ◌≤◌, String, Bool, true, Option, none, some, List, [], ◌∷◌, ◌≡◌, inl, inr, subst, eqb,
  arith, Outcome, ensure, ◌>>=◌, >>=-returned, thrown, returned, Outcome-cases, Bool-cases,
}
use communications_service.Prelude.Text.{filled}
use communications_service.Access.Scope.{Scope}
use communications_service.Access.MemorySafety.{Source, source_allowed}
use communications_service.Review.Promises.{Communication, Shown, read_promise}
use communications_service.Review.Promises.Open.{IsOpen, eligible-IsOpen, IsVisible}
use communications_service.Review.Promises.Visible.{source_allowed-open}
use communications_service.Review.Sessions.{
  Denial, Store, Item, Session, Object, Candidate, Mention, anyone, asking, visible_source,
  review_source_allowed, checked, set_stage, advance,
}

-- The two queues have items about the same things, in the same order.
abbrev pub IsSameQueue : List Item → List Item → Type 0
IsSameQueue [] [] = Unit {0}
IsSameQueue [] (r ∷ rs) = ⊥
IsSameQueue (q ∷ qs) [] = ⊥
IsSameQueue (q ∷ qs) (r ∷ rs) =
    (r.promise_id ≡ q.promise_id)
    × (r.object_id ≡ q.object_id)
    × (r.candidate_id ≡ q.candidate_id)
    × IsSameQueue qs rs

module _ (parse_date : String → Option ℕ) (is_uuid : String → Bool) (db : Store) where
  -- A promise that the caller may see and whose evidence is up to date.
  abbrev pub IsBacked : Scope → String → Type 0
  IsBacked scope id =
      (p : Shown) × (read_promise parse_date db.ledger is_uuid id scope ≡ returned (some p))
      × (p.source_current ≡ true)
      × IsVisible db.ledger id scope p

  -- A communication that is open to the scope, and unchanged since that revision.
  abbrev pub IsPresent : Scope → (communication_id : String) → (revision : ℕ) → Type 0
  IsPresent scope communication_id revision =
      (c : Communication) × (db.ledger.communication communication_id ≡ returned (some c))
      × IsOpen scope c.source
      × (c.promise_revision ≡ revision)

  -- What an item is about, if it has one, may be shown: its promise, expected output and candidate.
  pub record HasBacking (scope : Scope) (q : Item) : Type 0 where
    pub promise : (id : String) → q.promise_id ≡ some id → filled id ≡ true → IsBacked scope id
    pub object :
        (id : String)
        → q.object_id ≡ some id
        → filled id ≡ true
        → (o : Object) × (db.object id ≡ returned (some o))
          × IsPresent scope o.communication_id o.source_revision
    pub candidate :
        (id : String)
        → q.candidate_id ≡ some id
        → filled id ≡ true
        → (c : Candidate) × (db.candidate id ≡ returned (some c))
          × IsPresent scope c.communication_id c.source_revision

  pub allowed-IsOpen :
      (scope : Scope) (source : Source)
      → source_allowed parse_date (some source) (anyone scope) ≡ true
      → IsOpen scope source
  allowed-IsOpen scope source h =
      let (e, p, _, _) = source_allowed-open parse_date source (anyone scope) h in
      eligible-IsOpen scope source e p

  pub visible_source-IsOpen :
      (scope : Scope) (id : String) (c : Communication)
      → visible_source parse_date is_uuid db id (anyone scope) ≡ returned c
      → (db.ledger.communication id ≡ returned (some c)) × IsOpen scope c.source
  unfolding visible_source asking
  visible_source-IsOpen scope id c h = elim (Outcome-cases (db.ledger.communication id)) [
    | inl (e, x) ↦ absurd (ground arith)
    | inr (none, x) ↦ absurd (ground arith)
    | inr (some d, x) ↦
        elim (Bool-cases (source_allowed parse_date (some d.source) (anyone scope))) [
          | inr f ↦ absurd (ground arith)
          | inl t ↦
              let e : d ≡ c = ground arith in
              subst (λ v. (db.ledger.communication id ≡ returned (some v)) × IsOpen scope v.source)
                e (x, allowed-IsOpen scope d.source t)
        ]
  ]

  pub output_current-IsPresent :
      (scope : Scope) (o : Object) (denial : Denial)
      → (visible_source parse_date is_uuid db o.communication_id (anyone scope)
          >>= (λ c. ensure (eqb c.promise_revision o.source_revision) denial))
        ≡ returned tt
      → IsPresent scope o.communication_id o.source_revision
  output_current-IsPresent scope o denial h =
      let (c, known, k) =
        >>=-returned (visible_source parse_date is_uuid db o.communication_id (anyone scope))
          (λ c. ensure (eqb c.promise_revision o.source_revision) denial) h in
      let (stored, opened) = visible_source-IsOpen scope o.communication_id c known in
      (c, stored, opened, ground arith)

  pub review_source_allowed-open :
      (c : Communication) (scope : Scope) (mention : Mention)
      → review_source_allowed parse_date is_uuid db (some c) scope mention ≡ returned true
      → source_allowed parse_date (some c.source) (anyone scope) ≡ true
  unfolding review_source_allowed
  review_source_allowed-open c scope mention h = ground arith

  pub checked-id :
      (o : Option String) (check : String → Outcome Denial (Unit {0})) (id : String)
      → checked parse_date is_uuid db o check ≡ returned tt
      → o ≡ some id
      → filled id ≡ true
      → check id ≡ returned tt
  unfolding checked
  checked-id o check id h e f = ground (arith, rw e at h)

advance-revision :
    (expected : ℕ) (s row after : Session)
    → advance expected s row ≡ returned after
    → (row.revision ≡ s.revision) × (after.revision ≡ suc s.revision)
unfolding advance set_stage
advance-revision expected s row after h = ground arith

-- Of all who read a session at one revision, only one advances it: after a call of `advance` that
-- succeeds, every other one from that revision, or from an earlier one, is refused.
pub advance-once :
    (expected again : ℕ) (s t row after : Session)
    → advance expected s row ≡ returned after
    → t.revision ≤ s.revision
    → (e : Denial) × (advance again t after ≡ thrown e)
unfolding advance set_stage
advance-once expected again s t row after h le = elim (Outcome-cases (advance again t after)) [
  | inl refused ↦ refused
  | inr (other, x) ↦
      let (a, b) = advance-revision expected s row after h in
      let (c, d) = advance-revision again t after other x in absurd (omega (arith, a, b, c, d, le))
]
