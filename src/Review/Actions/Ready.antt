-- ===== src/Review/Actions/Ready.antt =====
-- reviewActions.js, `actionProposal`: an action that nothing is asked about.
use communications_service.Prelude.{
  ℕ, ◌≤◌, ◌⊎◌, sym, String, Bool, true, false, not, ◌||◌, Option, some, List, [], ◌∷◌, ◌++◌, ◌≡◌,
  inl, inr, refl, ◌∙◌, ap, subst, arith, All, Outcome, returned, Outcome-cases, Option-cases,
}
use communications_service.Prelude.Text.{same?_iff, truthy, filled, includes, has_text}
use communications_service.Storage.Json.{Value, Fields, text, number, object, get, truthy_value}
use communications_service.Access.Scope.{Scope}
use communications_service.Access.ReviewIdentity.{outside}
use communications_service.Review.Corrections.{is_true, string_of}
use communications_service.Review.Instants.{IsFuture, checked-IsFuture}
use communications_service.Review.Actions.{
  Kind, Proposal, required, is_words, is_revision, ask, ask_required, has_revision, has_zone_of,
  is_scheduled, text_of, project_of, parameters_of, kind_of, recipient, questions, with_questions,
  proposed, typed_proposal, no_proposal, action_proposal,
}

append-nil : {A : Type 0} (xs ys : List A) → xs ++ ys ≡ [] → (xs ≡ []) × (ys ≡ [])
append-nil [] ys h = (refl, h)
append-nil (x ∷ xs) ys h = absurd (ground arith)

ask-nil : (b : Bool) (question : String) → ask b question ≡ [] → b ≡ true
ask-nil true question h = refl
ask-nil false question h = absurd (ground arith)

-- The texts that an action of a kind needs.
abbrev pub needs : Kind → List String
needs Kind.reminder = "text" ∷ "scheduled_at" ∷ []
needs Kind.email = "recipient_person_id" ∷ "subject" ∷ "body" ∷ []
needs Kind.calendar = "calendar_key" ∷ "proposal_id" ∷ "hash" ∷ []
needs Kind.task = "title" ∷ []
needs Kind.follow_up = "recipient_person_id" ∷ "subject" ∷ "body" ∷ []

-- The parameter is a text that is not blank.
pub record IsText (parameters : Fields) (key : String) : Type 0 where
  pub words : String
  pub stored : get key parameters ≡ text words
  pub filled_in : has_text words ≡ true

is_words-text : (v : Value) → is_words v ≡ true → (s : String) × (v ≡ text s) × (has_text s ≡ true)
unfolding is_words
is_words-text (text s) h = (s, refl, h)
is_words-text v h = cc

is_words-IsText :
    (parameters : Fields) (key : String)
    → is_words (get key parameters) ≡ true
    → IsText parameters key
is_words-IsText parameters key h =
    let (s, e, f) = is_words-text (get key parameters) h in
    record { words = s; stored = e; filled_in = f }

required-needs : (kind : Kind) → required kind ≡ needs kind
required-needs Kind.reminder = refl
required-needs Kind.email = refl
required-needs Kind.calendar = refl
required-needs Kind.task = refl
required-needs Kind.follow_up = refl

ask_required-IsText :
    (ks : List String) (parameters : Fields)
    → ask_required ks parameters ≡ []
    → All (IsText parameters) ks
unfolding ask_required
ask_required-IsText [] parameters h = tt
ask_required-IsText (k ∷ ks) parameters h =
    let (a, b) = append-nil _ (ask_required ks parameters) h in
    (
      is_words-IsText parameters k (ask-nil (is_words (get k parameters)) _ a),
      ask_required-IsText ks parameters b,
    )

is_revision-number : (v : Value) → is_revision v ≡ true → (n : ℕ) × (v ≡ number n) × (1 ≤ n)
unfolding is_revision
is_revision-number (number n) h = (n, refl, ground arith)
is_revision-number v h = cc

has_revision-number :
    (kind : Kind) (parameters : Fields)
    → has_revision kind parameters ≡ true
    → kind ≡ Kind.calendar
    → (n : ℕ) × (get "expected_revision" parameters ≡ number n) × (1 ≤ n)
unfolding has_revision
has_revision-number kind parameters h e =
    is_revision-number (get "expected_revision" parameters) (rw e at h)

-- The kind is one whose actions need a time zone.
abbrev pub IsZoned : Kind → Type 0
IsZoned kind = (kind ≡ Kind.reminder) ⊎ (kind ≡ Kind.calendar)

text_of-eq : (v : Value) (x : String) → text_of v ≡ some x → v ≡ text x
unfolding text_of
text_of-eq (text s) x h = ground arith
text_of-eq v x h = cc

-- The proposal's project is the scope's, and in its list, where it has these.
pub record IsInScope (scope : Scope) (project : Value) : Type 0 where
  pub filled_in : truthy_value project ≡ true
  pub own : (x : String) → scope.external_project_id ≡ some x → filled x ≡ true → project ≡ text x
  pub listed :
      (ids : List String)
      → scope.allowed_project_ids ≡ some ids
      → (x : String) × (project ≡ text x) × (includes ids x ≡ true)

outside-listed :
    (ids : List String) (v : Value)
    → outside (some ids) (text_of v) ≡ false
    → (x : String) × (v ≡ text x) × (includes ids x ≡ true)
unfolding outside
outside-listed ids v h = elim (Option-cases (text_of v)) [
  | inl e ↦ absurd (cc (rw e at h))
  | inr (x, e) ↦ (x, text_of-eq v x e, ground arith)
]

project_of-IsInScope :
    (scope : Scope) (v project : Value)
    → project_of scope v ≡ some project
    → IsInScope scope project
unfolding project_of
project_of-IsInScope scope v project h =
    let same_value : v ≡ project = ground arith in
    subst (IsInScope scope) same_value (record {
      filled_in = ground arith;
      own = λ x e f.
          text_of-eq v x (sym ((same?_iff (some x) (text_of v)).0 (ground (arith, rw e at h))));
      listed = λ ids e. outside-listed ids v (ground (arith, rw e at h));
    })

module _ (parse_date : String → Option ℕ) (is_zone : String → Bool)
    (email_of : String → Outcome String (Option String)) where
  is_scheduled-IsFuture :
      (now : ℕ) (v : Value)
      → is_scheduled parse_date now v ≡ true
      → truthy_value v ≡ true
      → IsFuture parse_date now v
  unfolding is_scheduled
  is_scheduled-IsFuture now v h t = checked-IsFuture parse_date now v (ground arith)

  has_zone_of-IsZoned :
      (kind : Kind) (zone : Value)
      → has_zone_of is_zone kind zone ≡ true
      → IsZoned kind
      → (truthy_value zone ≡ true) × (is_zone (string_of zone) ≡ true)
  unfolding has_zone_of
  has_zone_of-IsZoned kind zone h (inl e) = ground (arith, rw e at h)
  has_zone_of-IsZoned kind zone h (inr e) = ground (arith, rw e at h)

  -- An action of a project of the scope, with all that its kind needs.
  pub record IsReady (now : ℕ) (scope : Scope) (input : Fields) (p : Proposal) : Type 0 where
    pub kind : Kind
    pub proposal : Fields
    pub given : get "proposal" input ≡ object proposal
    pub is_kind : p.kind ≡ some kind
    pub in_scope : IsInScope scope p.project_id
    pub complete : All (IsText p.parameters) (needs kind)
    pub approved :
        kind ≡ Kind.calendar → (n : ℕ) × (get "expected_revision" p.parameters ≡ number n) × (1 ≤ n)
    pub reachable :
        truthy_value (get "recipient_person_id" p.parameters) ≡ true
        → truthy p.recipient_email ≡ true
    pub in_zone :
        IsZoned kind
        → (truthy_value (get "timezone" proposal) ≡ true)
          × (is_zone (string_of (get "timezone" proposal)) ≡ true)
    pub scheduled :
        truthy_value (get "scheduled_at" p.parameters) ≡ true
        → IsFuture parse_date now (get "scheduled_at" p.parameters)

  questions-nil :
      (now : ℕ) (kind : Kind) (parameters : Fields) (address : Option String) (zone : Value)
      → questions parse_date is_zone email_of now kind parameters address zone ≡ []
      → All (IsText parameters) (needs kind)
        × (has_revision kind parameters ≡ true)
        × ((not (truthy_value (get "recipient_person_id" parameters)) || truthy address) ≡ true)
        × (has_zone_of is_zone kind zone ≡ true)
        × (is_scheduled parse_date now (get "scheduled_at" parameters) ≡ true)
  unfolding questions
  questions-nil now kind parameters address zone h =
      let (a, h1) = append-nil _ _ h in
      let (b, h2) = append-nil _ _ h1 in
      let (c, h3) = append-nil _ _ h2 in
      let (d, e) = append-nil _ _ h3 in
      (
        subst (All (IsText parameters)) (required-needs kind)
            (ask_required-IsText (required kind) parameters a),
        ask-nil _ _ b,
        ask-nil _ _ c,
        ask-nil _ _ d,
        ask-nil _ _ e,
      )

  with_questions-IsReady :
      (now : ℕ) (scope : Scope) (input : Fields) (confirmed : Bool) (kind : Kind)
      (project v : Value) (parameters proposal : Fields) (address : Option String)
      → get "proposal" input ≡ object proposal
      → project_of scope v ≡ some project
      → (with_questions parse_date is_zone email_of now confirmed kind project parameters proposal
          address).clarification
        ≡ []
      → IsReady now scope input (
          with_questions parse_date is_zone email_of now confirmed kind project parameters proposal
            address)
  unfolding with_questions
  with_questions-IsReady now scope input confirmed kind project v parameters proposal address given
        e c =
      let (complete, approved, reachable, zone, scheduled) =
        questions-nil now kind parameters address _ c in
      record {
        kind = kind;
        proposal = proposal;
        given = given;
        is_kind = refl;
        in_scope = project_of-IsInScope scope v project e;
        complete = complete;
        approved = has_revision-number kind parameters approved;
        reachable = λ t. ground arith;
        in_zone = has_zone_of-IsZoned kind (get "timezone" proposal) zone;
        scheduled = is_scheduled-IsFuture now (get "scheduled_at" parameters) scheduled;
      }

  proposed-IsReady :
      (now : ℕ) (scope : Scope) (input : Fields) (confirmed : Bool) (kind : Kind)
      (project v : Value) (parameters proposal : Fields) (p : Proposal)
      → get "proposal" input ≡ object proposal
      → project_of scope v ≡ some project
      → proposed parse_date is_zone email_of now confirmed kind project parameters proposal
        ≡ returned p
      → p.clarification ≡ []
      → IsReady now scope input p
  unfolding proposed
  proposed-IsReady now scope input confirmed kind project v parameters proposal p given e h c =
      elim (Outcome-cases
        (recipient parse_date is_zone email_of (get "recipient_person_id" parameters))) [
          | inl (m, x) ↦ absurd (ground arith)
          | inr (address, x) ↦
              let made =
                with_questions parse_date is_zone email_of now confirmed kind project parameters
                  proposal address in
              let same : made ≡ p = ground arith in
              subst (IsReady now scope input) same (
                with_questions-IsReady now scope input confirmed kind project v parameters proposal
                  address given e (ap (λ (r : Proposal). r.clarification) same ∙ c))
        ]

  typed_proposal-IsReady :
      (now : ℕ) (scope : Scope) (input : Fields) (confirmed : Bool) (proposal : Fields)
      (p : Proposal)
      → get "proposal" input ≡ object proposal
      → typed_proposal parse_date is_zone email_of now confirmed proposal scope ≡ returned p
      → p.clarification ≡ []
      → IsReady now scope input p
  unfolding typed_proposal
  typed_proposal-IsReady now scope input confirmed proposal p given h c =
      elim (Option-cases (kind_of (get "type" proposal))) [
        | inl e ↦ absurd (ground arith)
        | inr (kind, e) ↦ elim (Option-cases (parameters_of (get "parameters" proposal))) [
          | inl f ↦ absurd (ground arith)
          | inr (parameters, f) ↦
              elim (Option-cases (project_of scope (get "project_id" proposal))) [
                | inl g ↦ absurd (ground arith)
                | inr (project, g) ↦
                    proposed-IsReady now scope input confirmed kind project
                      (get "project_id" proposal) parameters proposal p given g (ground arith) c
              ]
        ]
      ]

  -- `action_proposal` on a proposal that was given.
  given-IsReady :
      (now : ℕ) (input : Fields) (scope : Scope) (p : Proposal) (v : Value)
      → get "proposal" input ≡ v
      → action_proposal parse_date is_zone email_of now input scope ≡ returned p
      → p.clarification ≡ []
      → IsReady now scope input p
  unfolding action_proposal no_proposal
  given-IsReady now input scope p (object proposal) e h c =
      typed_proposal-IsReady now scope input (is_true (get "authorized" input)) proposal p e
        (ground arith) c
  given-IsReady now input scope p v e h c = absurd (ground arith)

  -- A proposal about which nothing is asked is of one of the five kinds, for a project that is the
  -- scope's own, where it has one, and in its list, where it has one. It has the texts that its kind
  -- needs, none of them blank, and for a calendar the revision, a number from 1; a reminder or a
  -- calendar entry has a time zone that is known; who it is for has an email address; and its time,
  -- if it has one, is still to come and names its zone.
  pub action_proposal-IsReady :
      (now : ℕ) (input : Fields) (scope : Scope) (p : Proposal)
      → action_proposal parse_date is_zone email_of now input scope ≡ returned p
      → p.clarification ≡ []
      → IsReady now scope input p
  action_proposal-IsReady now input scope p h c =
      given-IsReady now input scope p (get "proposal" input) refl h c
