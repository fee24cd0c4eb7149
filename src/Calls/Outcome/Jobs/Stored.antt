-- ===== src/Calls/Outcome/Jobs/Stored.antt =====
-- callOutcome.js, `processJob` on a call that has its outcome: what is read back from the row.
use Prim.Native.String.{String}
use Prim.Native.Char.{Char}
use communications_service.Prelude.{
  ℕ, zero, suc, min, Bool, true, false, Option, none, some, ◌≡◌, ◌≢◌, refl, arith, ap, eq_iff,
  if◌then◌else◌, Bool-cases, inl, inr,
}
use communications_service.Prelude.Text.{filled}
use communications_service.Prelude.Units.{prefix}
use communications_service.Calls.Outcome.{
  Disposition, result, is_completed, text_or, excerpt, default_reason,
}
use communications_service.Calls.Outcome.Jobs.{Call, settled, stored_outcome}

prefix-prefix : (n : ℕ) (s : String) → prefix n (prefix n s) ≡ prefix n s
unfolding prefix
prefix-prefix zero s = refl
prefix-prefix (suc n) String.[] = refl
prefix-prefix (suc n) (String.◌∷◌ c s) = ap (String.◌∷◌ c) (prefix-prefix n s)

abbrev is_cons : String → Bool
is_cons String.[] = false
is_cons (String.◌∷◌ c s) = true

cons-nil : (c : Char) (s : String) → String.◌∷◌ c s ≢ ""
cons-nil c s e = let k = ap is_cons e in cc

cons-filled : (c : Char) (s : String) → filled (String.◌∷◌ c s) ≡ true
cons-filled c s = elim (Bool-cases (filled (String.◌∷◌ c s))) [
  | inl t ↦ t
  | inr f ↦ let k = (eq_iff (String.◌∷◌ c s) "").0 in ground (arith, k, cons-nil c s)
]

prefix-filled : (n : ℕ) (s : String) → filled s ≡ true → filled (prefix (suc n) s) ≡ true
unfolding prefix
prefix-filled n String.[] h = h
prefix-filled n (String.◌∷◌ c s) h = cons-filled c (prefix n s)

excerpt-excerpt : (e : Option String) → excerpt (excerpt e) ≡ excerpt e
unfolding excerpt
excerpt-excerpt none = refl
excerpt-excerpt (some s) =
    let h = prefix-filled 499 s in let k = prefix-prefix 500 s in ground arith

text_or-filled :
    (t : Option String) (default : String)
    → filled default ≡ true
    → filled (text_or t default) ≡ true
unfolding text_or
text_or-filled none default h = h
text_or-filled (some s) default h = ground arith

text_or-some : (s default : String) → filled s ≡ true → text_or (some s) default ≡ s
unfolding text_or
text_or-some s default h = ground arith

default_reason-filled : (b : Bool) → filled (default_reason b) ≡ true
unfolding default_reason
default_reason-filled true = refl
default_reason-filled false = refl

min-min : (n : ℕ) → min 100 (min 100 n) ≡ min 100 n
min-min n = omega arith

-- What is read back from a row in which an outcome of `result` was stored is that outcome; of a
-- success, whose reason is not stored, it has the default reason.
pub stored_outcome-settled :
    (c : Call) (d : Disposition) (source : Option String) (confidence : ℕ)
    (reason evidence : Option String)
    → stored_outcome (settled (result d source confidence reason evidence) c)
      ≡ result d source confidence (if is_completed d then none else reason) evidence
unfolding stored_outcome settled result
stored_outcome-settled c d source confidence reason evidence =
    let e = excerpt-excerpt evidence in
    let a = text_or-filled source "unknown" refl in
    let b =
      text_or-filled reason (default_reason (is_completed d))
        (default_reason-filled (is_completed d)) in
    let k = text_or-some (text_or source "unknown") "persisted_outcome" in
    let l = text_or-some (text_or source "unknown") "unknown" in
    let m =
      text_or-some (text_or reason (default_reason (is_completed d)))
        (default_reason (is_completed d)) in
    let n = min-min confidence in
    elim (Bool-cases (is_completed d)) [ inl t ↦ ground arith | inr f ↦ ground arith ]
