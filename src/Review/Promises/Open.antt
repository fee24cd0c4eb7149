-- ===== src/Review/Promises/Open.antt =====
-- promiseLedger.js, `readPromise`: which promise, evidence and sources are fit to be shown.
use communications_service.Prelude.{
  String, true, false, not, ◌||◌, Option, some, List, [], ◌∷◌, ◌≡◌, ◌≢◌, ◌⊎◌, any, find, Outcome,
  Option-cases, inl, inr, refl, All, arith, returned,
}
use communications_service.Prelude.Text.{truthy, same, same?, same?_iff, includes}
use communications_service.Access.Scope.{Scope}
use communications_service.Access.MemorySafety.{
  Source, includes?, listed, fits, eligible, is_voice, is_private,
}
use communications_service.Review.Promises.{
  Communication, Row, Evidence, Queries, Shown, cited, source_of, manual_source, refs, queried,
}

-- The outcomes of a communication that are not to be remembered.
abbrev pub noise : List String
noise =
    "spam" ∷ "bounce" ∷ "automatic_reply" ∷ "mailing_list" ∷ "system_generated" ∷ "voicemail"
    ∷ "no_answer" ∷ "failed" ∷ []

-- A source that is no secret to the scope, and that may be remembered.
pub record IsOpen (scope : Scope) (source : Source) : Type 0 where
  pub remembered : source.memory_eligible ≡ true
  pub not_retracted : source.retracted ≡ false
  pub not_pending : source.intake_pending ≡ false
  pub no_noise : (d : String) → source.disposition ≡ some d → includes noise d ≡ false
  pub voice_kept : source.channel ≡ some "voice" → source.voice_excluded ≡ false
  pub no_secret :
      scope.include_private ≡ false
      → (source.marked_private ≡ false)
        × (source.visibility ≢ some "private")
        × (source.visibility ≢ some "restricted")

pub eligible-IsOpen :
    (scope : Scope) (source : Source)
    → eligible source ≡ true
    → (scope.include_private || not (is_private source)) ≡ true
    → IsOpen scope source
unfolding eligible is_private is_voice includes? includes
eligible-IsOpen scope source e p = record {
  remembered = ground arith;
  not_retracted = ground arith;
  not_pending = ground arith;
  no_noise = λ d q. ground (arith, rw q at e);
  voice_kept = λ q. ground (arith, rw q at e);
  no_secret = λ q. (
    ground arith,
    λ r. absurd (ground (arith, rw (q, r) at p)),
    λ r. absurd (ground (arith, rw (q, r) at p)),
  );
}

-- The communication that evidence cites is among those that were read.
abbrev pub IsRead : List Communication → Evidence → Communication → Type 0
IsRead sources e c =
    (id : String) × (e.communication_id ≡ some id)
    × (find (λ s. same s.communication_id id) sources ≡ some c)

-- Evidence that may be shown: a person's own words, which cite no communication, or a snapshot and
-- the communication it is of, as it was read now, which are both open.
abbrev pub IsShown : Scope → List Communication → Evidence → Type 0
IsShown scope sources e =
    ((e.by_human ≡ true) × (truthy e.communication_id ≡ false))
    ⊎ ((snapshot : Source) × (present : Communication) × (e.source ≡ some snapshot)
        × IsRead sources e present
        × IsOpen scope snapshot
        × IsOpen scope present.source)

-- The source of a promise: its communication's, as it was read now, or the row itself.
abbrev pub IsSource : Queries → Row → Source → Type 0
IsSource q row source =
    ((truthy row.communication_id ≡ false) × (source ≡ manual_source row))
    ⊎ ((id : String) × (c : Communication) × (row.communication_id ≡ some id)
        × (q.communication id ≡ returned (some c))
        × (source ≡ c.source))

-- What `readPromise` answers with.
pub record IsVisible (q : Queries) (id : String) (scope : Scope) (s : Shown) : Type 0 where
  pub stored : q.promise id ≡ returned (some s.row)
  pub not_deleted : s.row.deleted ≡ true → scope.include_deleted ≡ true
  pub source : Source
  pub own : IsSource q s.row source
  pub is_open : IsOpen scope source
  pub in_project :
      truthy scope.external_project_id ≡ true
      → s.row.external_project_id ≡ scope.external_project_id
  pub in_projects :
      (ids : List String)
      → scope.allowed_project_ids ≡ some ids
      → includes? ids s.row.external_project_id ≡ true
  pub of_person :
      truthy scope.person_id ≡ true → any (λ p. same? p scope.person_id) s.row.parties ≡ true
  -- The evidence that is stored, and the communications that it cites.
  pub evidence : List Evidence
  pub sources : List Communication
  pub evidence_stored : q.evidence id ≡ returned evidence
  pub sources_read :
      ((refs evidence ≡ []) × (sources ≡ []))
      ⊎ (q.communications (refs evidence) ≡ returned sources)
  pub shown_evidence : All (IsShown scope sources) s.evidence

pub cited-IsRead :
    (sources : List Communication) (e : Evidence) (source : Source)
    → source_of (cited sources e.communication_id) ≡ some source
    → (c : Communication) × IsRead sources e c × (c.source ≡ source)
unfolding source_of cited
cited-IsRead sources e source h = elim (Option-cases e.communication_id) [
  | inl n ↦ absurd (cc (rw n at h))
  | inr (id, x) ↦ elim (Option-cases (find (λ s. same s.communication_id id) sources)) [
    | inl n ↦ absurd (cc (rw (x, n) at h))
    | inr (c, y) ↦ (c, (id, x, y), ground (arith, rw (x, y) at h))
  ]
]

pub queried-sources :
    (ids : List String) (query : List String → Outcome String (List Communication))
    (sources : List Communication)
    → queried ids [] query ≡ returned sources
    → ((ids ≡ []) × (sources ≡ [])) ⊎ (query ids ≡ returned sources)
unfolding queried
queried-sources [] query sources h = inl (refl, ground arith)
queried-sources (id ∷ ids) query sources h = inr h

pub fits-eq :
    (restriction value : Option String)
    → fits restriction value ≡ true
    → truthy restriction ≡ true
    → value ≡ restriction
unfolding fits
fits-eq restriction value h t = (same?_iff value restriction).0 (ground arith)

pub listed-includes :
    (allowed : Option (List String)) (value : Option String) (ids : List String)
    → listed allowed value ≡ true
    → allowed ≡ some ids
    → includes? ids value ≡ true
unfolding listed
listed-includes allowed value ids h e = rw e at h
