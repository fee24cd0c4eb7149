-- ===== src/Review/Answers/Committed.antt =====
-- reviewEngine.js, `respond`: what is recorded.
use communications_service.Prelude.{
  ℕ, ◌≤◌, String, Bool, true, false, not, ◌&&◌, ◌||◌, Option, none, some, List, ◌≡◌, ◌≢◌, ◌⊎◌, inl,
  inr, refl, find, length, arith, sym, ap, ◌∙◌, returned, Outcome-cases, Option-cases, Bool-cases,
}
use communications_service.Prelude.Text.{same, includes, filled, has_text}
use communications_service.Prelude.Units.{units}
use communications_service.Storage.Json.{Value, text, get}
use communications_service.Access.Scope.{Scope}
use communications_service.Review.Promises.{Shown, read_promise}
use communications_service.Review.Promises.Open.{IsVisible}
use communications_service.Review.Promises.Visible.{read_promise-IsVisible}
use communications_service.Review.Instants.{IsFuture, checked-IsFuture}
use communications_service.Review.Sessions.{
  changed_409, Store, Item, Session, Object, Candidate, asking, read, session,
}
use communications_service.Review.Sessions.Guards.{IsPresent, checked-id, output_current-IsPresent}
use communications_service.Review.Corrections.{validate_correction}
use communications_service.Review.Answers.{
  Intent, Confidence, Input, Commit, committed, is_filled, is_explicit, is_accept, is_snooze,
  is_correct, is_future, promise_readable, output_current, answered_before, visible_candidates,
  candidate_current, check_evidence, decide, answer, respond,
}
use communications_service.Review.Answers.Corrected.{IsCorrection, validate_correction-IsCorrection}
use communications_service.Review.Answers.Candidates.{IsPending, visible_candidates-IsPending}

-- A text that is not blank, of at most `most` units.
pub record IsSaid (most : ℕ) (v : Value) : Type 0 where
  pub words : String
  pub is_text : v ≡ text words
  pub filled_in : has_text words ≡ true
  pub short : length (units words) ≤ most

is_filled-IsSaid : (most : ℕ) (v : Value) → is_filled most v ≡ true → IsSaid most v
unfolding is_filled
is_filled-IsSaid most (text s) h = record {
  words = s;
  is_text = refl;
  filled_in = ground arith;
  short = ground arith;
}
is_filled-IsSaid most v h = cc

module _ (parse_date : String → Option ℕ) (is_uuid : String → Bool) (db : Store) where
  -- The candidate may be seen, or the request was answered before.
  abbrev IsCandidate : Session → (request_id : Value) → String → Type 0
  IsCandidate s request_id id =
      ((rows : List Candidate) × (db.candidates ≡ returned rows)
        × IsPending parse_date is_uuid db s.scope rows id)
      ⊎ ((r : String) × (request_id ≡ text r) × (includes s.answered r ≡ true))

  -- What the item is about may be shown: its promise, its expected output and its candidate.
  pub record HasEvidence (s : Session) (q : Item) (request_id : Value) : Type 0 where
    pub promise :
        (id : String)
        → q.promise_id ≡ some id
        → filled id ≡ true
        → (p : Shown) × (read_promise parse_date db.ledger is_uuid id s.scope ≡ returned (some p))
          × IsVisible db.ledger id s.scope p
    pub output :
        (id : String)
        → q.object_id ≡ some id
        → filled id ≡ true
        → (o : Object) × (db.object id ≡ returned (some o))
          × IsPresent parse_date is_uuid db s.scope o.communication_id o.source_revision
    pub candidate :
        (id : String) → q.candidate_id ≡ some id → filled id ≡ true → IsCandidate s request_id id

  promise_readable-IsVisible :
      (scope : Scope) (id : String)
      → promise_readable parse_date is_uuid db scope id ≡ returned tt
      → (p : Shown) × (read_promise parse_date db.ledger is_uuid id scope ≡ returned (some p))
        × IsVisible db.ledger id scope p
  unfolding promise_readable read asking
  promise_readable-IsVisible scope id h =
      elim (Outcome-cases (read_promise parse_date db.ledger is_uuid id scope)) [
        | inl (e, x) ↦ absurd (ground arith)
        | inr (none, x) ↦ absurd (ground arith)
        | inr (some p, x) ↦ (p, x, read_promise-IsVisible parse_date db.ledger is_uuid id scope p x)
      ]

  output_current-present :
      (scope : Scope) (id : String)
      → output_current parse_date is_uuid db scope id ≡ returned tt
      → (o : Object) × (db.object id ≡ returned (some o))
        × IsPresent parse_date is_uuid db scope o.communication_id o.source_revision
  unfolding output_current asking
  output_current-present scope id h = elim (Outcome-cases (db.object id)) [
    | inl (e, x) ↦ absurd (ground arith)
    | inr (none, x) ↦ absurd (ground arith)
    | inr (some o, x) ↦ (
      o,
      x,
      output_current-IsPresent parse_date is_uuid db scope o
          (changed_409 "Expected output source changed") (ground arith),
    )
  ]

  answered_before-text :
      (s : Session) (v : Value)
      → answered_before parse_date is_uuid db s v ≡ true
      → (r : String) × (v ≡ text r) × (includes s.answered r ≡ true)
  unfolding answered_before
  answered_before-text s (text r) h = (r, refl, h)
  answered_before-text s v h = cc

  candidate_current-IsCandidate :
      (s : Session) (request_id : Value) (id : String)
      → candidate_current parse_date is_uuid db s request_id id ≡ returned tt
      → IsCandidate s request_id id
  unfolding candidate_current
  candidate_current-IsCandidate s request_id id h =
      elim (Outcome-cases (visible_candidates parse_date is_uuid db s.scope)) [
        | inl (e, x) ↦ absurd (ground arith)
        | inr (ids, x) ↦ elim (Bool-cases (includes ids id)) [
          | inl y ↦ inl (visible_candidates-IsPending parse_date is_uuid db s.scope ids id x y)
          | inr n ↦ inr (answered_before-text s request_id (ground arith))
        ]
      ]

  check_evidence-HasEvidence :
      (s : Session) (q : Item) (request_id : Value)
      → check_evidence parse_date is_uuid db s q request_id ≡ returned tt
      → HasEvidence s q request_id
  unfolding check_evidence
  check_evidence-HasEvidence s q request_id h =
      let promises = promise_readable parse_date is_uuid db s.scope in
      let outputs = output_current parse_date is_uuid db s.scope in
      let candidates = candidate_current parse_date is_uuid db s request_id in
      let known = checked-id parse_date is_uuid db in
      record {
        promise = λ id e f.
            promise_readable-IsVisible s.scope id
              (known q.promise_id promises id (ground arith) e f);
        output = λ id e f.
            output_current-present s.scope id (known q.object_id outputs id (ground arith) e f);
        candidate = λ id e f.
            candidate_current-IsCandidate s request_id id
              (known q.candidate_id candidates id (ground arith) e f);
      }

  is_explicit_lem :
      (input : Input)
      → is_explicit input ≡ true
      → ((c : Confidence) → input.confidence ≡ some c → c.is_sure ≡ true)
        × (input.requires_clarification ≡ false)
  unfolding is_explicit
  is_explicit_lem input h = (λ c e. ground (arith, rw e at h), ground arith)

  is_future-IsFuture :
      (now : ℕ) (v : Value)
      → is_future parse_date is_uuid db now v ≡ true
      → IsFuture parse_date now v
  unfolding is_future
  is_future-IsFuture now v h = checked-IsFuture parse_date now v (ground arith)

  -- The procedure is called with what the client sent.
  pub record IsOf (input : Input) (c : Commit) : Type 0 where
    pub item : c.item_id ≡ input.review_item_id
    pub intent : input.intent ≡ some c.intent
    pub utterance : c.utterance ≡ input.utterance
    pub request_id : c.request_id ≡ input.request_id
    pub details : c.details ≡ input.details
    pub confidence : c.confidence ≡ input.confidence
    pub revision : c.revision ≡ input.expected_revision

  -- What holds where an answer is recorded.
  pub record IsCommitted (now : ℕ) (id owner : String) (input : Input) (scope : Scope) (c : Commit)
      : Type 0 where
    pub s : Session
    pub read : session parse_date is_uuid db id owner scope ≡ returned s
    pub q : Item
    pub found : find (λ q. same q.id input.review_item_id) s.review_queue ≡ some q
    pub recorded : IsOf input c
    pub said : IsSaid 4000 input.utterance
    pub identified : IsSaid 300 input.request_id
    pub sure : (x : Confidence) → input.confidence ≡ some x → x.is_sure ≡ true
    pub not_proposed : input.requires_clarification ≡ false
    pub own_terms : q.requires_clarification ≡ true → c.intent ≢ Intent.accept
    pub snoozed :
        c.intent ≡ Intent.snooze → IsFuture parse_date now (get "snoozed_until" input.details)
    pub corrected : c.intent ≡ Intent.correct → IsCorrection parse_date q input.details
    pub evidence : HasEvidence s q input.request_id

  decide-guards :
      (now : ℕ) (s : Session) (q : Item) (input : Input) (intent : Intent) (c : Commit)
      → decide parse_date is_uuid db now s q input intent ≡ returned (committed c)
      → ((not (is_snooze intent)
            || is_future parse_date is_uuid db now (get "snoozed_until" input.details))
          ≡ true)
        × ((is_correct intent ≡ false)
            ⊎ (validate_correction parse_date is_uuid db q input.details s.scope ≡ returned tt))
        × (check_evidence parse_date is_uuid db s q input.request_id ≡ returned tt)
  unfolding decide
  decide-guards now s q input intent c h = ground arith

  decide-IsOf :
      (now : ℕ) (s : Session) (q : Item) (input : Input) (intent : Intent) (c : Commit)
      → input.intent ≡ some intent
      → decide parse_date is_uuid db now s q input intent ≡ returned (committed c)
      → IsOf input c
  unfolding decide
  decide-IsOf now s q input intent c e h = record {
    item = ground arith;
    intent = e ∙ ap some (ground arith);
    utterance = ground arith;
    request_id = ground arith;
    details = ground arith;
    confidence = ground arith;
    revision = ground arith;
  }

  answer-decide :
      (now : ℕ) (s : Session) (q : Item) (input : Input) (c : Commit)
      → answer parse_date is_uuid db now s q input ≡ returned (committed c)
      → (is_filled 4000 input.utterance ≡ true)
        × (is_filled 300 input.request_id ≡ true)
        × (is_explicit input ≡ true)
        × ((intent : Intent) × (input.intent ≡ some intent)
            × ((q.requires_clarification && is_accept intent) ≡ false)
            × (decide parse_date is_uuid db now s q input intent ≡ returned (committed c)))
  unfolding answer
  answer-decide now s q input c h = elim (Option-cases input.intent) [
    | inl e ↦ absurd (ground arith)
    | inr (intent, e) ↦
        (ground arith, ground arith, ground arith, (intent, e, ground arith, ground arith))
  ]

  answer-IsCommitted :
      (now : ℕ) (id owner : String) (input : Input) (scope : Scope) (c : Commit) (s : Session)
      (q : Item)
      → session parse_date is_uuid db id owner scope ≡ returned s
      → find (λ q. same q.id input.review_item_id) s.review_queue ≡ some q
      → answer parse_date is_uuid db now s q input ≡ returned (committed c)
      → IsCommitted now id owner input scope c
  unfolding is_accept is_snooze is_correct
  answer-IsCommitted now id owner input scope c s q read found h =
      let (said, identified, explicit, (intent, e, terms, d)) = answer-decide now s q input c h in
      let (snoozed, corrected, shown) = decide-guards now s q input intent c d in
      let of_input = decide-IsOf now s q input intent c e d in
      let same_intent : intent ≡ c.intent = ground (arith, sym e ∙ of_input.intent) in
      record {
        s = s;
        read = read;
        q = q;
        found = found;
        recorded = of_input;
        said = is_filled-IsSaid 4000 input.utterance said;
        identified = is_filled-IsSaid 300 input.request_id identified;
        sure = (is_explicit_lem input explicit).0;
        not_proposed = (is_explicit_lem input explicit).1;
        own_terms = λ r a. accepts intent (same_intent ∙ a) r terms;
        snoozed = λ a.
            is_future-IsFuture now (get "snoozed_until" input.details)
              (snoozes intent (same_intent ∙ a) snoozed);
        corrected = λ a.
            validate_correction-IsCorrection parse_date is_uuid db q input.details s.scope
              (corrects intent (same_intent ∙ a) corrected);
        evidence = check_evidence-HasEvidence s q input.request_id shown;
      }
    where
      accepts :
          (i : Intent)
          → i ≡ Intent.accept
          → q.requires_clarification ≡ true
          → (q.requires_clarification && is_accept i) ≡ false
          → ⊥
      accepts i e r h = absurd (ground (arith, rw e at h))

      snoozes :
          (i : Intent)
          → i ≡ Intent.snooze
          → (not (is_snooze i)
              || is_future parse_date is_uuid db now (get "snoozed_until" input.details))
            ≡ true
          → is_future parse_date is_uuid db now (get "snoozed_until" input.details) ≡ true
      snoozes i e h = ground (arith, rw e at h)

      corrects :
          (i : Intent)
          → i ≡ Intent.correct
          → (is_correct i ≡ false)
            ⊎ (validate_correction parse_date is_uuid db q input.details s.scope ≡ returned tt)
          → validate_correction parse_date is_uuid db q input.details s.scope ≡ returned tt
      corrects i e (inl n) = absurd (ground (arith, rw e at n))
      corrects i e (inr y) = y

  -- An answer is recorded only of an item of a session that is open to the caller, as it was sent: with
  -- words of at most 4000 units and a request id of at most 300, neither of them blank, as one of the
  -- six decisions, on a confidence, if there is one, that is enough, and no proposal. It does not
  -- accept terms that are to be changed. It puts off only until a time to come that has a time zone.
  -- It corrects only a promise, only in the seven terms, with a due date that is confirmed, explicit or
  -- cleared on purpose. The item's promise is visible, the communication of its expected output is
  -- open and unchanged, and so is that of its candidate, which is among the stored ones, unless the
  -- same request was answered before.
  pub respond-IsCommitted :
      (now : ℕ) (id owner : String) (input : Input) (scope : Scope) (c : Commit)
      → respond parse_date is_uuid db now id owner input scope ≡ returned (committed c)
      → IsCommitted now id owner input scope c
  unfolding respond
  respond-IsCommitted now id owner input scope c h =
      elim (Outcome-cases (session parse_date is_uuid db id owner scope)) [
        | inl (e, x) ↦ absurd (ground arith)
        | inr (s, x) ↦
            elim (Option-cases (find (λ q. same q.id input.review_item_id) s.review_queue)) [
              | inl e ↦ absurd (ground arith)
              | inr (q, e) ↦ answer-IsCommitted now id owner input scope c s q x e (ground arith)
            ]
      ]
