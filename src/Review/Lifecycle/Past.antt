-- ===== src/Review/Lifecycle/Past.antt =====
-- reviewEngine.js, `lifecycle`: a due time that has passed.
use communications_service.Prelude.Units.{text_lt}
use communications_service.Prelude.{
  ℕ, ◌<◌, ◌⊎◌, refl, String, true, false, Option, none, some, ◌≡◌, inl, inr, arith, Option-cases,
  Bool-cases,
}
use communications_service.Prelude.Text.{truthy, filled, same?_iff}
use communications_service.Review.Lifecycle.{
  Due, due_passed, date_passed, instant_passed, zone_of, is_established,
}

established-eq :
    (v : Option String) → (v ≡ some "explicit") ⊎ (v ≡ some "confirmed") → is_established v ≡ true
unfolding is_established
established-eq v (inl e) = rw e refl
established-eq v (inr e) = rw e refl

module _ (local_date : ℕ → String → Option String) (parse_date : String → Option ℕ) where
  -- The instant has passed.
  pub record IsPastInstant (now : ℕ) (due : Due) : Type 0 where
    pub text : String
    pub instant : due.instant ≡ some text
    pub filled_in : filled text ≡ true
    pub time : ℕ
    pub read : parse_date text ≡ some time
    pub earlier : time < now

  -- There is only a date, and it is before today's in the time zone of the promise, or else in the
  -- one that is asked for.
  pub record IsPastDate (now : ℕ) (zone : String) (due : Due) : Type 0 where
    pub no_instant : truthy due.instant ≡ false
    pub date : String
    pub dated : due.date_candidate ≡ some date
    pub filled_in : filled date ≡ true
    pub place : String
    pub in_zone :
        ((due.timezone ≡ some place) × (filled place ≡ true))
        ⊎ ((truthy due.timezone ≡ false) × (place ≡ zone))
    pub today : String
    pub read : local_date now place ≡ some today
    pub earlier : text_lt date today ≡ true

  -- The due time is explicit or confirmed, and has passed.
  pub record IsPast (now : ℕ) (zone : String) (given : Option Due) : Type 0 where
    pub due : Due
    pub is_given : given ≡ some due
    pub established : (due.status ≡ some "explicit") ⊎ (due.status ≡ some "confirmed")
    pub passed : IsPastInstant now due ⊎ IsPastDate now zone due

  zone_of-cases :
      (zone : String) (own : Option String)
      → ((own ≡ some (zone_of local_date parse_date zone own))
          × (filled (zone_of local_date parse_date zone own) ≡ true))
        ⊎ ((truthy own ≡ false) × (zone_of local_date parse_date zone own ≡ zone))
  unfolding zone_of
  zone_of-cases zone none = inr (refl, refl)
  zone_of-cases zone (some z) = elim (Bool-cases (filled z)) [
    | inl e ↦ inl (ground arith, ground arith)
    | inr e ↦ inr (e, ground arith)
  ]

  zone_of_unique :
      (zone place : String) (own : Option String)
      → ((own ≡ some place) × (filled place ≡ true)) ⊎ ((truthy own ≡ false) × (place ≡ zone))
      → zone_of local_date parse_date zone own ≡ place
  unfolding zone_of
  zone_of_unique zone place own h = ground arith

  instant_passed-IsPastInstant :
      (now : ℕ) (due : Due) (i : String)
      → due.instant ≡ some i
      → filled i ≡ true
      → instant_passed local_date parse_date now i ≡ true
      → IsPastInstant now due
  unfolding instant_passed
  instant_passed-IsPastInstant now due i e f h = elim (Option-cases (parse_date i)) [
    | inl n ↦ absurd (ground arith)
    | inr (t, r) ↦ record {
      text = i;
      instant = e;
      filled_in = f;
      time = t;
      read = r;
      earlier = ground arith;
    }
  ]

  date_passed-IsPastDate :
      (now : ℕ) (zone : String) (due : Due)
      → truthy due.instant ≡ false
      → date_passed local_date parse_date now
          (zone_of local_date parse_date zone due.timezone)
          due.date_candidate
        ≡ some true
      → IsPastDate now zone due
  unfolding date_passed
  date_passed-IsPastDate now zone due blank h =
      let place = zone_of local_date parse_date zone due.timezone in
      elim (Option-cases due.date_candidate) [
        | inl n ↦ absurd (ground arith)
        | inr (date, e) ↦ elim (Option-cases (local_date now place)) [
          | inl n ↦ absurd (ground arith)
          | inr (today, r) ↦ record {
            no_instant = blank;
            date = date;
            dated = e;
            filled_in = ground arith;
            place = place;
            in_zone = zone_of-cases zone due.timezone;
            today = today;
            read = r;
            earlier = ground arith;
          }
        ]
      ]

  pub due_passed-IsPast :
      (now : ℕ) (zone : String) (given : Option Due)
      → due_passed local_date parse_date now zone given ≡ some true
      → IsPast now zone given
  unfolding due_passed
  due_passed-IsPast now zone none h = cc
  due_passed-IsPast now zone (some due) h = record {
    due = due;
    is_given = refl;
    established =
        ground
          (arith, same?_iff due.status (some "explicit"), same?_iff due.status (some "confirmed"));
    passed = elim (Bool-cases (truthy due.instant)) [
      | inr n ↦ inr (date_passed-IsPastDate now zone due n (ground arith))
      | inl y ↦ elim (Option-cases due.instant) [
        | inl n ↦ absurd (ground arith)
        | inr (i, e) ↦ inl (instant_passed-IsPastInstant now due i e (ground arith) (ground arith))
      ]
    ];
  }

  pub IsPast-due_passed :
      (now : ℕ) (zone : String) (given : Option Due)
      → IsPast now zone given
      → due_passed local_date parse_date now zone given ≡ some true
  unfolding due_passed instant_passed date_passed
  IsPast-due_passed now zone given past =
      let given_due = past.is_given in
      let e : is_established past.due.status ≡ true =
        established-eq past.due.status past.established in
      elim past.passed [
        | inl i ↦
            let a = i.instant in
            let b = i.filled_in in let c = i.read in let d = i.earlier in ground arith
        | inr i ↦
            let z = zone_of_unique zone i.place past.due.timezone i.in_zone in
            let a = i.no_instant in
            let b = i.dated in
            let c = i.filled_in in let d = i.read in let f = i.earlier in ground arith
      ]
