-- ===== src/Review/Lifecycle.antt =====
-- reviewEngine.js: `lifecycle` and `priority`. A promise is a record of what the two functions read;
-- a missing list is empty. `local_date` is `localDate`, which formats an instant in a time zone
-- (Intl), none where it throws; `parse_date` is Date.parse, none for NaN. Instants are milliseconds
-- from a time before all of them. `importance` is in whole points, 0 if it is negative or no number.
pub mod Past
pub mod Laws
pub mod Tests
use communications_service.Prelude.{
  ℕ, ◌+◌, min, String, Bool, true, false, not, ◌&&◌, ◌||◌, Option, none, some, List, [], ◌∷◌, ltb,
  leb, any, if◌then◌else◌,
}
use communications_service.Prelude.Text.{same?, or_else, truthy}
use communications_service.Prelude.Units.{text_lt, prefix}

pub record Due : Type 0 where
  pub status : Option String
  pub instant : Option String
  pub date_candidate : Option String
  pub timezone : Option String

pub record Promise : Type 0 where
  pub observed_state : Option String
  pub review_state : Option String
  pub conditions : List (Option String)
  pub due : Option Due
  pub has_promisee : Bool
  pub uncertain : Bool
  pub importance : ℕ
  pub meeting_dependency : Bool

pub data State : Type 0 where
  fulfilled cancelled superseded fulfilment_suspected proposed : State
  condition_failed condition_pending overdue ready outstanding : State

-- `value === s`
abbrev pub is : Option String → String → Bool
is value s = same? value (some s)

-- `conditions.some(c => c.status === s)`
unfoldable pub some_condition : String → List (Option String) → Bool
some_condition s conditions = any (λ c. is c s) conditions

-- ["explicit", "confirmed"].includes(due?.status)
unfoldable pub is_established : Option String → Bool
is_established status = is status "explicit" || is status "confirmed"

module _ (local_date : ℕ → String → Option String) (parse_date : String → Option ℕ) where
  -- `date && date < localDate(now, zone)`
  unfoldable pub date_passed : (now : ℕ) → (zone : String) → Option String → Option Bool
  date_passed now zone none = some false
  date_passed now zone (some date) =
      if truthy (some date)
      then elim (local_date now zone) [ none ↦ none | some today ↦ some (text_lt date today) ]
      else some false

  unfoldable pub instant_passed : (now : ℕ) → String → Bool
  instant_passed now instant = elim (parse_date instant) [ none ↦ false | some t ↦ ltb t now ]

  unfoldable pub zone_of : (zone : String) → Option String → String
  zone_of zone own = elim (or_else own (some zone)) [ none ↦ zone | some z ↦ z ]

  -- Whether an established due time has passed; none where `localDate` throws.
  unfoldable pub due_passed : (now : ℕ) → (zone : String) → Option Due → Option Bool
  unfolding date_passed instant_passed zone_of is_established
  due_passed now zone none = some false
  due_passed now zone (some due) =
      if not (is_established due.status)
      then some false
      else if truthy due.instant
      then some (elim due.instant [ none ↦ false | some i ↦ instant_passed now i ])
      else date_passed now (zone_of zone due.timezone) due.date_candidate

  -- A confirmed promise without an open condition.
  unfoldable pub confirmed_state : (now : ℕ) → (zone : String) → Promise → Option State
  unfolding due_passed
  confirmed_state now zone p = elim (due_passed now zone p.due) [
    | none ↦ none
    | some true ↦ some overdue
    | some false ↦ some (elim p.conditions [ [] ↦ outstanding | c ∷ cs ↦ ready ])
  ]

  -- `lifecycle`; none where `localDate` throws.
  unfoldable pub lifecycle : (now : ℕ) → (zone : String) → Promise → Option State
  unfolding confirmed_state some_condition
  lifecycle now zone p =
      if is p.observed_state "fulfilled"
      then some fulfilled
      else if is p.observed_state "cancelled" || is p.review_state "dismissed"
      then some cancelled
      else if is p.observed_state "superseded"
      then some superseded
      else if is p.observed_state "completion_claimed"
      then some fulfilment_suspected
      else if not (is p.review_state "confirmed")
      then some proposed
      else if some_condition "failed" p.conditions
      then some condition_failed
      else if some_condition "pending" p.conditions
      then some condition_pending
      else confirmed_state now zone p

  -- `p.due_interpretation?.date_candidate || p.due_interpretation?.instant?.slice(0, 10)`
  unfoldable pub due_date : Option Due → Option String
  due_date none = none
  due_date (some due) =
      or_else due.date_candidate (elim due.instant [ none ↦ none | some i ↦ some (prefix 10 i) ])

  -- Within the next two days.
  unfoldable pub is_soon : (now : ℕ) → Option String → Bool
  is_soon now none = false
  is_soon now (some date) =
      truthy (some date)
      && elim (parse_date date) [ none ↦ false | some t ↦ leb t (now + 172800000) && leb now t ]

  unfoldable pub urgency : (now : ℕ) → (today : String) → State → Option String → ℕ
  unfolding is_soon
  urgency now today overdue date = 30
  urgency now today state date = if is date today then 25 else if is_soon now date then 15 else 0

  unfoldable pub score : (now : ℕ) → (today : String) → State → Promise → ℕ
  unfolding urgency due_date
  score now today state p =
      urgency now today state (due_date p.due)
      + (if p.has_promisee then 20 else 0)
      + (elim state [ fulfilment_suspected ↦ 10 | _ ↦ 0 ])
      + (if p.uncertain then 5 else 0)
      + min 20 p.importance
      + (if p.meeting_dependency then 15 else 0)

  -- `priority`; an overdue promise's score needs no date.
  unfoldable pub priority : (now : ℕ) → (zone : String) → Promise → Option ℕ
  unfolding lifecycle score
  priority now zone p = elim (lifecycle now zone p) [
    | none ↦ none
    | some overdue ↦ some (score now "" overdue p)
    | some state ↦ elim (local_date now zone) [
      | none ↦ none
      | some today ↦ some (score now today state p)
    ]
  ]
