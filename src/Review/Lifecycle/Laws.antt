-- ===== src/Review/Lifecycle/Laws.antt =====
-- reviewEngine.js: `lifecycle` and `priority`.
use communications_service.Prelude.Units.{text_lt}
use communications_service.Prelude.{
  sym, ◌∙◌, ℕ, ◌≤◌, ◌≢◌, refl, List, [], ◌∷◌, All, any, String, true, false, Option, none, some,
  ◌≡◌, ◌↔◌, inl, inr, arith, Option-cases, Bool-cases,
}
use communications_service.Prelude.Text.{truthy, same?_iff}
use communications_service.Review.Lifecycle.{
  Due, Promise, State, is, some_condition, due_passed, date_passed, instant_passed, zone_of,
  confirmed_state, lifecycle,
}
use communications_service.Review.Lifecycle.Past.{IsPast, due_passed-IsPast, IsPast-due_passed}

-- A confirmed promise that nothing has ended or holds up.
pub record IsLive (p : Promise) : Type 0 where
  pub confirmed : p.review_state ≡ some "confirmed"
  pub not_fulfilled : p.observed_state ≢ some "fulfilled"
  pub not_cancelled : p.observed_state ≢ some "cancelled"
  pub not_superseded : p.observed_state ≢ some "superseded"
  pub not_claimed : p.observed_state ≢ some "completion_claimed"
  pub no_failed : All (λ c. c ≢ some "failed") p.conditions
  pub no_pending : All (λ c. c ≢ some "pending") p.conditions

is-eq : (v : Option String) (s : String) → is v s ≡ true → v ≡ some s
is-eq v s h = (same?_iff v (some s)).0 h

is-ne : (v : Option String) (s : String) → is v s ≡ false → v ≢ some s
is-ne v s h e = absurd (cc ((same?_iff v (some s)).1 e))

ne-is : (v : Option String) (s : String) → v ≢ some s → is v s ≡ false
ne-is v s n = elim (Bool-cases (is v s)) [ inl e ↦ absurd (n (is-eq v s e)) | inr e ↦ e ]

some_condition-All :
    (s : String) (cs : List (Option String))
    → some_condition s cs ≡ false
    → All (λ c. c ≢ some s) cs
unfolding some_condition any
some_condition-All s [] h = tt
some_condition-All s (c ∷ cs) h = (is-ne c s (ground arith), some_condition-All s cs (ground arith))

All-some_condition :
    (s : String) (cs : List (Option String))
    → All (λ c. c ≢ some s) cs
    → some_condition s cs ≡ false
unfolding some_condition any
All-some_condition s [] h = refl
All-some_condition s (c ∷ cs) (n, h) = ground (arith, ne-is c s n, All-some_condition s cs h)

module _ (local_date : ℕ → String → Option String) (parse_date : String → Option ℕ) where
  confirmed_state-overdue :
      (now : ℕ) (zone : String) (p : Promise)
      → (confirmed_state local_date parse_date now zone p ≡ some State.overdue)
        ↔ (due_passed local_date parse_date now zone p.due ≡ some true)
  unfolding confirmed_state
  confirmed_state-overdue now zone p = ground arith

  lifecycle-live :
      (now : ℕ) (zone : String) (p : Promise)
      → IsLive p
      → lifecycle local_date parse_date now zone p
        ≡ confirmed_state local_date parse_date now zone p
  unfolding lifecycle
  lifecycle-live now zone p live =
      let a : is p.review_state "confirmed" ≡ true =
        (same?_iff p.review_state (some "confirmed")).1 live.confirmed in
      let b = ne-is p.observed_state "fulfilled" live.not_fulfilled in
      let c = ne-is p.observed_state "cancelled" live.not_cancelled in
      let d : is p.review_state "dismissed" ≡ false = rw live.confirmed refl in
      let e = ne-is p.observed_state "superseded" live.not_superseded in
      let f = ne-is p.observed_state "completion_claimed" live.not_claimed in
      let g = All-some_condition "failed" p.conditions live.no_failed in
      let h = All-some_condition "pending" p.conditions live.no_pending in ground arith

  lifecycle-IsLive :
      (now : ℕ) (zone : String) (p : Promise)
      → lifecycle local_date parse_date now zone p ≡ some State.overdue
      → IsLive p
  unfolding lifecycle
  lifecycle-IsLive now zone p h = record {
    confirmed = is-eq p.review_state "confirmed" (ground arith);
    not_fulfilled = is-ne p.observed_state "fulfilled" (ground arith);
    not_cancelled = is-ne p.observed_state "cancelled" (ground arith);
    not_superseded = is-ne p.observed_state "superseded" (ground arith);
    not_claimed = is-ne p.observed_state "completion_claimed" (ground arith);
    no_failed = some_condition-All "failed" p.conditions (ground arith);
    no_pending = some_condition-All "pending" p.conditions (ground arith);
  }

  lifecycle-due_passed :
      (now : ℕ) (zone : String) (p : Promise)
      → (lifecycle local_date parse_date now zone p ≡ some State.overdue)
        ↔ (IsLive p × due_passed local_date parse_date now zone p.due ≡ some true)
  lifecycle-due_passed now zone p = (
    λ h.
        let live = lifecycle-IsLive now zone p h in
        (live, (confirmed_state-overdue now zone p).0 (sym (lifecycle-live now zone p live) ∙ h)),
    λ h. lifecycle-live now zone p h.0 ∙ (confirmed_state-overdue now zone p).1 h.1,
  )

  -- A promise is overdue exactly if it is confirmed, nothing has ended it or claims its completion, no
  -- condition of it has failed or is pending, and its due time is explicit or confirmed and has
  -- passed: its instant is before now, or it has no instant and its date is before today's in the
  -- time zone of the promise, or in the one that is asked for if the promise has none.
  pub lifecycle-overdue :
      (now : ℕ) (zone : String) (p : Promise)
      → (lifecycle local_date parse_date now zone p ≡ some State.overdue)
        ↔ (IsLive p × IsPast local_date parse_date now zone p.due)
  lifecycle-overdue now zone p =
      let k = lifecycle-due_passed now zone p in
      (
        λ h. ((k.0 h).0, due_passed-IsPast local_date parse_date now zone p.due (k.0 h).1),
        λ h. k.1 (h.0, IsPast-due_passed local_date parse_date now zone p.due h.1),
      )

  -- The calendar does not run backwards, and does not fail for a zone it has answered for.
  module _
      (local_date-IsMonotone : (now later : ℕ) (zone a : String)
        → now ≤ later
        → local_date now zone ≡ some a
        → (b : String) × (local_date later zone ≡ some b)
          × ((date : String) → text_lt date a ≡ true → text_lt date b ≡ true)) where
    date_passed-later :
        (now later : ℕ) (zone : String) (date : Option String)
        → now ≤ later
        → date_passed local_date parse_date now zone date ≡ some true
        → date_passed local_date parse_date later zone date ≡ some true
    unfolding date_passed
    date_passed-later now later zone none le h = h
    date_passed-later now later zone (some date) le h = elim (Bool-cases (truthy (some date))) [
      | inl t ↦ elim (Option-cases (local_date now zone)) [
        | inl e ↦ ground arith
        | inr (a, e) ↦
            let (b, f, g) = local_date-IsMonotone now later zone a le e in ground (arith, g date)
      ]
      | inr f ↦ ground arith
    ]

    due_passed-later :
        (now later : ℕ) (zone : String) (due : Option Due)
        → now ≤ later
        → due_passed local_date parse_date now zone due ≡ some true
        → due_passed local_date parse_date later zone due ≡ some true
    unfolding due_passed instant_passed
    due_passed-later now later zone none le h = h
    due_passed-later now later zone (some due) le h =
        let k =
          date_passed-later now later (zone_of local_date parse_date zone due.timezone)
            due.date_candidate le in
        ground arith

    -- An overdue promise whose record does not change stays overdue at every later time, where the
    -- dates of a time zone do not run backwards.
    pub lifecycle-later :
        (now later : ℕ) (zone : String) (p : Promise)
        → now ≤ later
        → lifecycle local_date parse_date now zone p ≡ some State.overdue
        → lifecycle local_date parse_date later zone p ≡ some State.overdue
    lifecycle-later now later zone p le h =
        let k = (lifecycle-due_passed now zone p).0 h in
        (lifecycle-due_passed later zone p).1 (k.0, due_passed-later now later zone p.due le k.1)
