-- ===== src/Review/Answers/Corrected.antt =====
-- reviewEngine.js, `validateCorrection`: a correction that may be made.
use communications_service.Prelude.{
  ℕ, String, Bool, true, false, not, ◌&&◌, ◌||◌, Option, some, List, [], ◌∷◌, ◌≡◌, ◌⊎◌, inl, inr,
  refl, arith, eq_iff, ap, Bool-cases, Option-cases, returned,
}
use communications_service.Prelude.Text.{same, includes, truthy}
use communications_service.Prelude.Units.{has_zone, is_date}
use communications_service.Storage.Json.{
  Value, Fields, undefined, boolean, text, object, end, field, get, truthy_value,
}
use communications_service.Access.Scope.{Scope}
use communications_service.Review.Sessions.{Store, Item}
use communications_service.Review.Corrections.{
  validate_correction, keys_allowed, check_patch, check_due, prop, is_resolved, is_unspecified,
  is_instant, is_true, string_of,
}

-- The terms of a promise that a correction may change.
abbrev terms : List String
terms =
    "description" ∷ "due" ∷ "promisor_parties" ∷ "promisee_parties" ∷ "id" ∷ "status"
    ∷ "related_promise_id" ∷ []

-- Without the keys that a correction may change, a patch has no entry.
keys_allowed-get :
    (k : String) (fs : Fields)
    → keys_allowed fs ≡ true
    → includes terms k ≡ false
    → get k fs ≡ undefined
unfolding keys_allowed get
keys_allowed-get k end h n = refl
keys_allowed-get k (field j v fs) h n =
    let ih = keys_allowed-get k fs in ground (arith, ih, eq_iff j k)

is_true-boolean : (v : Value) → is_true v ≡ true → v ≡ boolean true
unfolding is_true
is_true-boolean (boolean b) h = ap boolean h
is_true-boolean v h = cc

-- The status of a due date that is settled: confirmed or explicit, or left open on purpose.
abbrev IsSettledStatus : Fields → Value → Type 0
IsSettledStatus details status =
    (status ≡ text "confirmed")
    ⊎ ((status ≡ text "explicit")
        ⊎ ((status ≡ text "unspecified") × (get "clear_deadline" details ≡ boolean true)))

status-cases :
    (details : Fields) (v : Value)
    → is_resolved v ≡ true
    → (not (is_unspecified v) || is_true (get "clear_deadline" details)) ≡ true
    → IsSettledStatus details v
unfolding is_resolved is_unspecified includes
status-cases details (text s) h k = elim (Bool-cases (same "confirmed" s)) [
  | inl e ↦ inl (ap text (ground (arith, eq_iff "confirmed" s)))
  | inr n ↦ elim (Bool-cases (same "explicit" s)) [
    | inl e ↦ inr (inl (ap text (ground (arith, eq_iff "explicit" s))))
    | inr m ↦ inr (
        inr (
          ap text (ground (arith, eq_iff "unspecified" s)),
          is_true-boolean (get "clear_deadline" details) (ground arith),
        ))
  ]
]
status-cases details v h k = cc

module _ (parse_date : String → Option ℕ) where
  -- A due date that is settled, with a time zone.
  pub record IsDueDate (details : Fields) (due : Value) : Type 0 where
    pub status : IsSettledStatus details (prop "status" due)
    pub zoned :
        truthy_value (prop "instant" due) ≡ true
        → (has_zone (string_of (prop "instant" due)) ≡ true)
          × ((t : ℕ) × (parse_date (string_of (prop "instant" due)) ≡ some t))
    pub dated :
        truthy_value (prop "date_candidate" due) ≡ true
        → (is_date (string_of (prop "date_candidate" due)) ≡ true)
          × (truthy_value (prop "timezone" due) ≡ true)

  is_instant-zoned :
      (v : Value)
      → is_instant parse_date v ≡ true
      → (has_zone (string_of v) ≡ true) × ((t : ℕ) × (parse_date (string_of v) ≡ some t))
  unfolding is_instant
  is_instant-zoned v h = elim (Option-cases (parse_date (string_of v))) [
    | inl n ↦ absurd (ground arith)
    | inr (t, e) ↦ (ground arith, (t, e))
  ]

  check_due-guards :
      (details : Fields) (due : Value)
      → truthy_value due ≡ true
      → check_due parse_date details due ≡ returned tt
      → (is_resolved (prop "status" due) ≡ true)
        × ((not (is_unspecified (prop "status" due)) || is_true (get "clear_deadline" details))
            ≡ true)
        × ((not (truthy_value (prop "instant" due)) || is_instant parse_date (prop "instant" due))
            ≡ true)
        × ((not (truthy_value (prop "date_candidate" due))
              || (is_date (string_of (prop "date_candidate" due))
                  && truthy_value (prop "timezone" due)))
            ≡ true)
  unfolding check_due
  check_due-guards details due t h = (ground arith, ground arith, ground arith, ground arith)

  check_due-IsDueDate :
      (details : Fields) (due : Value)
      → check_due parse_date details due ≡ returned tt
      → truthy_value due ≡ true
      → IsDueDate details due
  check_due-IsDueDate details due h t =
      let (a, b, c, d) = check_due-guards details due t h in
      record {
        status = status-cases details (prop "status" due) a b;
        zoned = λ i. is_instant-zoned (prop "instant" due) (ground arith);
        dated = λ i. (ground arith, ground arith);
      }

  -- A correction that may be made.
  pub record IsCorrection (q : Item) (details : Fields) : Type 0 where
    pub patch : Fields
    pub is_patch : get "patch" details ≡ object patch
    pub of_promise : truthy q.promise_id ≡ true
    pub within_terms : (k : String) → includes terms k ≡ false → get k patch ≡ undefined
    pub due : truthy_value (get "due" patch) ≡ true → IsDueDate details (get "due" patch)

  module _ (is_uuid : String → Bool) (db : Store) where
    check_patch-due :
        (details patch : Fields) (scope : Scope)
        → check_patch parse_date is_uuid db details patch scope ≡ returned tt
        → (keys_allowed patch ≡ true)
          × (check_due parse_date details (get "due" patch) ≡ returned tt)
    unfolding check_patch
    check_patch-due details patch scope h = ground arith

    patch-cases :
        (q : Item) (details : Fields) (scope : Scope) (v : Value)
        → get "patch" details ≡ v
        → validate_correction parse_date is_uuid db q details scope ≡ returned tt
        → (patch : Fields) × (v ≡ object patch)
          × (truthy q.promise_id ≡ true)
          × (check_patch parse_date is_uuid db details patch scope ≡ returned tt)
    unfolding validate_correction
    patch-cases q details scope (object end) e h = absurd (ground arith)
    patch-cases q details scope (object (field k v fs)) e h =
        (field k v fs, refl, ground arith, ground arith)
    patch-cases q details scope v e h = absurd (ground arith)

    pub validate_correction-IsCorrection :
        (q : Item) (details : Fields) (scope : Scope)
        → validate_correction parse_date is_uuid db q details scope ≡ returned tt
        → IsCorrection q details
    validate_correction-IsCorrection q details scope h =
        let (patch, e, p, k) = patch-cases q details scope (get "patch" details) refl h in
        let (allowed, d) = check_patch-due details patch scope k in
        record {
          patch = patch;
          is_patch = e;
          of_promise = p;
          within_terms = λ key n. keys_allowed-get key patch allowed n;
          due = check_due-IsDueDate details (get "due" patch) d;
        }
