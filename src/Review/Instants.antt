-- ===== src/Review/Instants.antt =====
-- reviewEngine.js and reviewActions.js: a time that a client gives, which is still to come.
use communications_service.Prelude.{
  ℕ, ◌<◌, String, true, false, ◌&&◌, Option, none, some, ◌≡◌, inl, inr, arith, ltb, Option-cases,
}
use communications_service.Prelude.Units.{has_zone}
use communications_service.Storage.Json.{Value}
use communications_service.Review.Corrections.{string_of}

-- The value is an instant that is still to come, with a time zone.
pub record IsFuture (parse_date : String → Option ℕ) (now : ℕ) (v : Value) : Type 0 where
  pub zoned : has_zone (string_of v) ≡ true
  pub time : ℕ
  pub read : parse_date (string_of v) ≡ some time
  pub later : now < time

pub checked-IsFuture :
    (parse_date : String → Option ℕ) (now : ℕ) (v : Value)
    → (has_zone (string_of v)
        && elim (parse_date (string_of v)) [ none ↦ false | some t ↦ ltb now t ])
      ≡ true
    → IsFuture parse_date now v
checked-IsFuture parse_date now v h = elim (Option-cases (parse_date (string_of v))) [
  | inl n ↦ absurd (ground arith)
  | inr (time, r) ↦ record { zoned = ground arith; time = time; read = r; later = ground arith }
]
