-- ===== src/Review/Promises/Visible.antt =====
-- promiseLedger.js, `readPromise`: what is shown.
use communications_service.Prelude.{
  ℕ, String, Bool, true, false, not, ◌&&◌, ◌||◌, Option, none, some, List, [], ◌∷◌, ◌≡◌, ◌⊎◌,
  Option-cases, inl, inr, refl, keep, All, arith, subst, sym, if-both, returned, >>=-returned,
  Outcome-cases, Bool-cases, ◌>>=◌,
}
use communications_service.Prelude.Text.{truthy}
use communications_service.Access.Scope.{Scope}
use communications_service.Access.MemorySafety.{
  Source, listed, fits, eligible, is_voice, is_private, source_allowed, in_scope_projects,
  in_scope_rest, unassigned_conversation,
}
use communications_service.Review.Promises.{
  Communication, Row, Evidence, Queries, Shown, audience_source, allowed_source, audience_allowed,
  cited, source_of, refs, person_ids, queried, evidence_allowed, takes_part, shown, own_source,
  read_evidence, read_row, read_promise,
}
use communications_service.Review.Promises.Open.{
  IsOpen, eligible-IsOpen, IsShown, IsSource, IsVisible, cited-IsRead, queried-sources, fits-eq,
  listed-includes,
}

module _ (parse_date : String → Option ℕ) where
  pub source_allowed-open :
      (source : Source) (scope : Scope)
      → source_allowed parse_date (some source) scope ≡ true
      → (eligible source ≡ true)
        × ((scope.include_private || not (is_private source)) ≡ true)
        × (in_scope_projects source scope ≡ true)
        × (in_scope_rest parse_date source scope ≡ true)
  unfolding source_allowed
  source_allowed-open source scope h = ground arith

  allowed_source-IsOpen :
      (row : Row) (source : Source) (scope : Scope)
      → allowed_source parse_date (audience_source row source) scope ≡ true
      → IsOpen scope source
  unfolding allowed_source audience_source eligible is_private is_voice
  allowed_source-IsOpen row source scope h =
      let (e, p, r, t) = source_allowed-open _ _ h in eligible-IsOpen scope source e p

  allowed_source-project :
      (row : Row) (source : Source) (scope : Scope)
      → allowed_source parse_date (audience_source row source) scope ≡ true
      → fits scope.external_project_id row.external_project_id ≡ true
  unfolding allowed_source audience_source in_scope_projects unassigned_conversation
  allowed_source-project row source scope h =
      let (e, p, r, t) = source_allowed-open _ _ h in ground arith

  keep-All :
      (p : Evidence → Bool) (P : Evidence → Type 0) (es : List Evidence)
      → ((e : Evidence) → p e ≡ true → P e)
      → All P (keep p es)
  unfolding keep
  keep-All p P [] f = tt
  keep-All p P (e ∷ es) f =
      if-both (All P) (p e) (e ∷ keep p es) (keep p es) (λ t. (f e t, keep-All p P es f))
        (λ t. keep-All p P es f)

  audience_allowed-IsOpen :
      (row : Row) (source : Option Source) (scope : Scope)
      → audience_allowed parse_date row source scope ≡ true
      → (s : Source) × (source ≡ some s) × IsOpen scope s
  unfolding audience_allowed
  audience_allowed-IsOpen row none scope h = cc
  audience_allowed-IsOpen row (some s) scope h = (s, refl, allowed_source-IsOpen row s scope h)

  or-cases : (a b : Bool) → (a || b) ≡ true → (a ≡ true) ⊎ (b ≡ true)
  or-cases true b h = inl refl
  or-cases false b h = inr h

  evidence_allowed-IsShown :
      (row : Row) (sources : List Communication) (scope : Scope) (e : Evidence)
      → evidence_allowed parse_date row sources scope e ≡ true
      → IsShown scope sources e
  unfolding evidence_allowed
  evidence_allowed-IsShown row sources scope e h =
      elim (or-cases (not (truthy e.communication_id) && e.by_human)
        (audience_allowed parse_date row e.source scope
          && audience_allowed parse_date row (source_of (cited sources e.communication_id)) scope)
        h) [
          | inl human ↦ inl (ground arith, ground arith)
          | inr both ↦
              let (snapshot, a, b) = audience_allowed-IsOpen row e.source scope (ground arith) in
              let (present, c, d) =
                audience_allowed-IsOpen row (source_of (cited sources e.communication_id)) scope
                  (ground arith) in
              let (communication, read, same_source) = cited-IsRead sources e present c in
              inr (snapshot, communication, a, read, b, subst (IsOpen scope) (sym same_source) d)
        ]

  shown-evidence :
      (scope : Scope) (row : Row) (revision : Option ℕ) (sources : List Communication)
      (evidence : List Evidence) (s : Shown)
      → shown parse_date scope row revision sources evidence ≡ some s
      → (s.row ≡ row)
        × (s.evidence ≡ keep (evidence_allowed parse_date row sources scope) evidence)
        × ((not (truthy scope.person_id) || takes_part scope row) ≡ true)
  unfolding shown
  shown-evidence scope row revision sources evidence s h = ground arith

  module _ (q : Queries) where
    read_evidence-shown :
        (scope : Scope) (id : String) (row : Row) (revision : Option ℕ) (s : Shown)
        → read_evidence parse_date q scope id row revision ≡ returned (some s)
        → (sources : List Communication) × (evidence : List Evidence) × (q.evidence id
            ≡ returned evidence)
          × (queried (refs evidence) [] q.communications ≡ returned sources)
          × (shown parse_date scope row revision sources evidence ≡ some s)
    unfolding read_evidence
    read_evidence-shown scope id row revision s h =
        let (evidence, a, k) =
          >>=-returned (q.evidence id)
            (λ evidence. do
              sources ← queried (refs evidence) [] q.communications
              u ← queried (person_ids row.parties) tt q.people
              returned (shown parse_date scope row revision sources evidence))
            h in
        let (sources, b, l) =
          >>=-returned (queried (refs evidence) [] q.communications)
            (λ sources. do
              u ← queried (person_ids row.parties) tt q.people
              returned (shown parse_date scope row revision sources evidence))
            k in
        let (u, c, m) =
          >>=-returned (queried (person_ids row.parties) tt q.people)
            (λ u. returned (shown parse_date scope row revision sources evidence)) l in
        (sources, evidence, a, b, ground arith)

    own_source-IsSource :
        (row : Row) (source : Source) (revision : Option ℕ)
        → own_source parse_date q row ≡ returned (some (source, revision))
        → IsSource q row source
    unfolding own_source
    own_source-IsSource row source revision h = elim (Option-cases row.communication_id) [
      | inl n ↦ inl (ground arith, ground arith)
      | inr (id, e) ↦ elim (Bool-cases (truthy (some id))) [
        | inr f ↦ inl (rw e f, ground arith)
        | inl t ↦ elim (Outcome-cases (q.communication id)) [
          | inl (m, x) ↦ absurd (ground arith)
          | inr (none, x) ↦ absurd (ground arith)
          | inr (some c, x) ↦ inr (id, c, e, x, ground arith)
        ]
      ]
    ]

    visible :
        (scope : Scope) (id : String) (row : Row) (s : Shown) (source : Source)
        (revision : Option ℕ)
        → q.promise id ≡ returned (some row)
        → (not row.deleted || scope.include_deleted) ≡ true
        → own_source parse_date q row ≡ returned (some (source, revision))
        → allowed_source parse_date (audience_source row source) scope ≡ true
        → listed scope.allowed_project_ids row.external_project_id ≡ true
        → read_evidence parse_date q scope id row revision ≡ returned (some s)
        → IsVisible q id scope s
    unfolding takes_part
    visible scope id row s source revision stored kept own allowed projects h =
        let (sources, evidence, a, b, k) = read_evidence-shown scope id row revision s h in
        let (is_row, es, person) = shown-evidence scope row revision sources evidence s k in
        record {
          stored = rw is_row stored;
          not_deleted = λ d. ground (arith, rw is_row at d);
          source = source;
          own = rw is_row (own_source-IsSource row source revision own);
          is_open = allowed_source-IsOpen row source scope allowed;
          in_project = λ t. rw is_row (
              fits-eq scope.external_project_id row.external_project_id
                (allowed_source-project row source scope allowed) t);
          in_projects = λ ids e.
              rw is_row
                (listed-includes scope.allowed_project_ids row.external_project_id ids projects e);
          of_person = λ t. rw is_row (ground arith);
          evidence = evidence;
          sources = sources;
          evidence_stored = a;
          sources_read = queried-sources (refs evidence) q.communications sources b;
          shown_evidence = subst (All (IsShown scope sources)) (sym es) (
              keep-All (evidence_allowed parse_date row sources scope) (IsShown scope sources)
                evidence (evidence_allowed-IsShown row sources scope));
        }

    read_row-IsVisible :
        (scope : Scope) (id : String) (row : Row) (s : Shown)
        → q.promise id ≡ returned (some row)
        → (not row.deleted || scope.include_deleted) ≡ true
        → read_row parse_date q scope id row ≡ returned (some s)
        → IsVisible q id scope s
    unfolding read_row
    read_row-IsVisible scope id row s stored kept h =
        elim (Outcome-cases (own_source parse_date q row)) [
          | inl (e, x) ↦ absurd (ground arith)
          | inr (none, x) ↦ absurd (ground arith)
          | inr (some (source, revision), x) ↦
              elim (Bool-cases (
                allowed_source parse_date (audience_source row source) scope
                && listed scope.allowed_project_ids row.external_project_id)) [
                  | inl t ↦
                      visible scope id row s source revision stored kept x (ground arith)
                        (ground arith) (ground arith)
                  | inr f ↦ absurd (ground arith)
                ]
        ]

    -- What `readPromise` shows under a scope is the stored promise of that id, not deleted unless the
    -- scope takes in deleted ones, of the project, of one of the projects, and with the person as a
    -- party, where the scope names these. Its own source, read now, is marked for memory, neither
    -- retracted nor pending, with no outcome such as spam and no voice that is excluded, and neither
    -- private nor restricted unless the scope takes in private sources. The same holds of the
    -- snapshot and of the communication, read now, of each piece of evidence that is shown, except
    -- of a person's own words, which cite none.
    pub read_promise-IsVisible :
        (is_uuid : String → Bool) (id : String) (scope : Scope) (s : Shown)
        → read_promise parse_date q is_uuid id scope ≡ returned (some s)
        → IsVisible q id scope s
    unfolding read_promise
    read_promise-IsVisible is_uuid id scope s h = elim (Bool-cases (is_uuid id)) [
      | inr f ↦ absurd (ground arith)
      | inl t ↦ elim (Outcome-cases (q.promise id)) [
        | inl (e, x) ↦ absurd (ground arith)
        | inr (none, x) ↦ absurd (ground arith)
        | inr (some row, x) ↦ elim (Bool-cases (row.deleted && not scope.include_deleted)) [
          | inl d ↦ absurd (ground arith)
          | inr d ↦ read_row-IsVisible scope id row s x (ground arith) (ground arith)
        ]
      ]
    ]
