-- ===== src/Review/Corrections.antt =====
-- reviewEngine.js, `validateCorrection`: the change to a promise that an answer may ask for. The answer's
-- details are the JSON object that came with it.
use communications_service.Prelude.{
  ℕ, String, Bool, true, false, not, ◌&&◌, ◌||◌, Option, none, some, List, [], ◌∷◌, if◌then◌else◌,
  Outcome, thrown, returned, ◌>>=◌, ◌>>◌, ensure,
}
use communications_service.Prelude.Text.{includes, truthy}
use communications_service.Prelude.Units.{has_zone, is_date}
use communications_service.Storage.Json.{
  Value, Values, Fields, undefined, null, boolean, number, text, array, object, nil, cons, end,
  field, get, truthy_value,
}
use communications_service.Access.Scope.{Scope}
use communications_service.Review.Sessions.{
  Denial, invalid_400, not_found_404, failed, Store, Item, asking, read,
}
use Prim.Native.String.{◌++◌ as ◌<>◌}

-- `v === true`
unfoldable pub is_true : Value → Bool
is_true (boolean b) = b
is_true _ = false

-- `v.k` of a value that is not null or undefined.
unfoldable pub prop : String → Value → Value
prop k (object fs) = get k fs
prop k _ = undefined

unfoldable mutual
  -- `String(v)`, where the digits of a number do not matter: no pattern here fits a number.
  pub string_of : Value → String
  string_of undefined = "undefined"
  string_of null = "null"
  string_of (boolean true) = "true"
  string_of (boolean false) = "false"
  string_of (number n) = "0"
  string_of (text s) = s
  string_of (array vs) = joined vs
  string_of (object fs) = "[object Object]"

  -- A member of an array, in the array's text.
  pub member : Value → String
  member undefined = ""
  member null = ""
  member (boolean true) = "true"
  member (boolean false) = "false"
  member (number n) = "0"
  member (text s) = s
  member (array vs) = joined vs
  member (object fs) = "[object Object]"

  pub joined : Values → String
  joined nil = ""
  joined (cons v nil) = member v
  joined (cons v (cons w vs)) = ◌<>◌ (member v) (◌<>◌ "," (joined (cons w vs)))

abbrev pub allowed_keys : List String
allowed_keys =
    "description" ∷ "due" ∷ "promisor_parties" ∷ "promisee_parties" ∷ "id" ∷ "status"
    ∷ "related_promise_id" ∷ []

unfoldable pub keys_allowed : Fields → Bool
keys_allowed end = true
keys_allowed (field k v fs) = includes allowed_keys k && keys_allowed fs

-- `["confirmed", "explicit", "unspecified"].includes(v)`
unfoldable pub is_resolved : Value → Bool
is_resolved (text s) = includes ("confirmed" ∷ "explicit" ∷ "unspecified" ∷ []) s
is_resolved _ = false

unfoldable pub is_unspecified : Value → Bool
is_unspecified (text s) = includes ("unspecified" ∷ []) s
is_unspecified _ = false

module _ (parse_date : String → Option ℕ) where
  unfoldable pub is_instant : Value → Bool
  is_instant v = elim (parse_date (string_of v)) [ none ↦ false | some t ↦ has_zone (string_of v) ]

  unfoldable pub check_due : (details : Fields) → Value → Outcome Denial (Unit {0})
  unfolding is_resolved is_unspecified is_instant prop is_true
  check_due details due = if not (truthy_value due) then returned tt else do
    a ←
        ensure (is_resolved (prop "status" due))
          (invalid_400 "Resolve the date before confirmation")
    b ←
        ensure (not (is_unspecified (prop "status" due)) || is_true (get "clear_deadline" details))
          (invalid_400 "Explicit deadline clearing confirmation required")
    c ←
        ensure (not (truthy_value (prop "instant" due)) || is_instant (prop "instant" due))
          (invalid_400 "Resolved deadline requires timezone")
    ensure
        (not (truthy_value (prop "date_candidate" due))
          || (is_date (string_of (prop "date_candidate" due))
              && truthy_value (prop "timezone" due)))
        (invalid_400 "Date-only deadline requires date and timezone")

  module _ (is_uuid : String → Bool) (db : Store) where
    -- The person of a party is one of the tenant's contacts.
    unfoldable pub check_person : Value → Outcome Denial (Unit {0})
    check_person person =
        if not (truthy_value person)
        then thrown (invalid_400 "Participant unavailable")
        else asking (db.contact (string_of person))
          >>= (λ found. ensure found (invalid_400 "Participant unavailable"))

    unfoldable pub check_party : Value → Outcome Denial (Unit {0})
    unfolding check_person prop
    check_party undefined = thrown (failed "TypeError")
    check_party null = thrown (failed "TypeError")
    check_party v = check_person (prop "person_id" v)

    unfoldable pub check_parties : Values → Outcome Denial (Unit {0})
    unfolding check_party
    check_parties nil = returned tt
    check_parties (cons v vs) = check_party v >> check_parties vs

    -- One turn of the loop over the two keys.
    unfoldable pub check_participants : (details : Fields) → Value → Outcome Denial (Unit {0})
    unfolding check_parties is_true
    check_participants details parties =
        if not (truthy_value parties) then returned tt else elim parties [
          | array vs ↦
              ensure (is_true (get "confirm_participants" details))
                (invalid_400 "Confirm resolved participants explicitly")
              >> check_parties vs
          | _ ↦ thrown (invalid_400 "Confirm resolved participants explicitly")
        ]

    unfoldable pub check_related : Scope → Value → Outcome Denial (Unit {0})
    check_related scope id =
        if not (truthy_value id)
        then returned tt
        else read parse_date is_uuid db (string_of id) scope >>= (λ found.
          ensure (elim found [ none ↦ false | some p ↦ true ])
            (not_found_404 "Replacement unavailable"))

    unfoldable pub check_patch : (details patch : Fields) → Scope → Outcome Denial (Unit {0})
    unfolding keys_allowed check_due check_participants check_related
    check_patch details patch scope = do
      a ←
          ensure (keys_allowed patch)
            (invalid_400 "Unsupported correction; project changes require the scoped promise API")
      b ← check_due details (get "due" patch)
      c ← check_participants details (get "promisor_parties" patch)
      d ← check_participants details (get "promisee_parties" patch)
      check_related scope (get "related_promise_id" patch)

    -- `validateCorrection`
    unfoldable pub validate_correction :
        Item → (details : Fields) → Scope → Outcome Denial (Unit {0})
    unfolding check_patch
    validate_correction q details scope =
        if not (truthy q.promise_id)
        then thrown (invalid_400 "Correction requires a promise")
        else elim (get "patch" details) [
          | object (field k v fs) ↦ check_patch details (field k v fs) scope
          | _ ↦ thrown (invalid_400 "Explicit correction patch required")
        ]
