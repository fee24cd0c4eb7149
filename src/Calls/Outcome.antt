-- ===== src/Calls/Outcome.antt =====
-- callOutcome.js: what came of a call, as far as rules decide it. `test` and `match` are the RegExp
-- engine on the file's six patterns, `lower` is toLowerCase; a confidence is in hundredths, 0 where
-- Number gives no number or a negative one.
pub mod Jobs
pub mod Sweeps
pub mod Tests
use Prim.Native.String.{◌++◌ as ◌<>◌}
use Prim.Native.Char.{code}
use communications_service.Prelude.{
  ℕ, ◌+◌, min, String, Bool, true, false, not, ◌&&◌, ◌||◌, Option, none, some, List, [], ◌∷◌, leb,
  any, find, if◌then◌else◌,
}
use communications_service.Prelude.Text.{same, filled, truthy, or_else, includes, trim, is_space}
use communications_service.Prelude.Units.{prefix}

pub data Disposition : Type 0 where
  human_completed voicemail wrong_number no_answer busy fax automated_system : Disposition
  no_meaningful_response provider_failed canceled unclassified : Disposition

pub data Pattern : Type 0 where
  machine_results wrong_number_words voicemail_words automated_words only_social : Pattern
  short_reply : Pattern

pub record CallOutcome : Type 0 where
  pub disposition : Disposition
  pub successful : Bool
  pub memory_eligible : Bool
  pub failure_code : Option Disposition
  pub reason : String
  pub source : String
  pub confidence : ℕ
  pub evidence : Option String

unfoldable pub is_completed : Disposition → Bool
is_completed human_completed = true
is_completed _ = false

default_reason : Bool → String
default_reason successful =
    if successful
    then "The intended human gave a meaningful response"
    else "The call did not complete with a verified human response"

unfoldable pub text_or : Option String → String → String
text_or none default = default
text_or (some s) default = if filled s then s else default

-- `evidence ? String(evidence).slice(0, 500) : null`
unfoldable pub excerpt : Option String → Option String
excerpt none = none
excerpt (some s) = if filled s then some (prefix 500 s) else none

-- `result`
unfoldable pub result :
    Disposition
    → (source : Option String) (confidence : ℕ) (reason evidence : Option String) → CallOutcome
unfolding is_completed default_reason text_or excerpt
result disposition source confidence reason evidence =
    let successful = is_completed disposition in
    record {
      disposition = disposition;
      successful = successful;
      memory_eligible = successful;
      failure_code = if successful then none else some disposition;
      reason = text_or reason (default_reason successful);
      source = text_or source "unknown";
      confidence = min 100 confidence;
      evidence = excerpt evidence;
    }

pub record Segment : Type 0 where
  pub role : Option String
  pub text : Option String

-- `PROVIDER_FAILURES.get(provider)`
unfoldable pub provider_failure : String → Option (Disposition × String)
provider_failure provider =
    if same provider "busy"
    then some (busy, "The destination was busy")
    else if same provider "no-answer"
    then some (no_answer, "The call was not answered")
    else if same provider "failed"
    then some (provider_failed, "The voice provider reported a failed call")
    else if same provider "canceled"
    then some (canceled, "The call was canceled")
    else none

-- `segment.split(/\s+/).length` of a text; `inside` where the character before it is white space.
words : (inside : Bool) → String → ℕ
words inside String.[] = 1
words inside (String.◌∷◌ c s) =
    let space = is_space (code c) in
    let rest = words space s in if space && not inside then 1 + rest else rest

-- `segments.join("\n")`
joined : List String → String
joined [] = ""
joined (s ∷ []) = s
joined (s ∷ ss) = ◌<>◌ s (◌<>◌ "\n" (joined ss))

text_of : Option String → String
text_of none = ""
text_of (some s) = s

abbrev caller_roles : List String
caller_roles = "user" ∷ "caller" ∷ "customer" ∷ "participant" ∷ []

module _ (lower : String → String) (test : Pattern → String → Bool)
    (match : Pattern → String → Option String) where
  -- `callerSegments`
  unfoldable pub caller_segments : List Segment → List String
  unfolding text_of
  caller_segments [] = []
  caller_segments (segment ∷ segments) =
      let rest = caller_segments segments in
      let said = trim (text_of segment.text) in
      if includes caller_roles (lower (text_of segment.role)) && filled said
      then said ∷ rest
      else rest

  is_meaningful : String → Bool
  unfolding words
  is_meaningful segment =
      test short_reply segment || (not (test only_social segment) && leb 2 (words false segment))

  -- A rule that names the words it found.
  by_words : Disposition → Pattern → (confidence : ℕ) → (reason said : String) → CallOutcome
  by_words disposition pattern confidence reason said =
      result disposition (some "transcript_rule") confidence (some reason) (match pattern said)

  unfoldable pub transcript_outcome : List String → Option CallOutcome
  unfolding joined is_meaningful by_words
  transcript_outcome segments =
      let said = joined segments in
      if test wrong_number_words said
      then some (
          by_words wrong_number wrong_number_words 99 "The recipient said this was the wrong number"
            said)
      else if test voicemail_words said
      then some (
          by_words voicemail voicemail_words 98
            "The transcript contains a voicemail or full-mailbox greeting" said)
      else if test automated_words said
      then some (
          by_words automated_system automated_words 98 "The call reached an automated service" said)
      else elim segments [
        | [] ↦ none
        | s ∷ ss ↦
            if any is_meaningful (s ∷ ss)
            then none
            else some (
                result no_meaningful_response (some "transcript_rule") 90
                  (some "No meaningful human response was captured") (some said))
      ]

  -- What answering-machine detection, or else the transcript of a completed call, says.
  unfoldable pub answered_outcome : (provider answer : String) → List Segment → Option CallOutcome
  unfolding transcript_outcome
  answered_outcome provider answer segments =
      if same answer "fax"
      then some (result fax (some "twilio_amd") 100 (some "Twilio detected a fax") none)
      else if test machine_results answer
      then some (
          result voicemail (some "twilio_amd") 100 (some "Twilio detected an answering machine")
            (some answer))
      else if not (same provider "completed")
      then none
      else transcript_outcome (caller_segments segments)

  -- `deterministicCallOutcome`
  unfoldable pub deterministic_call_outcome :
      (provider_status answered_by : Option String) → List Segment → Option CallOutcome
  unfolding answered_outcome text_of
  deterministic_call_outcome provider_status answered_by segments =
      let provider = lower (text_of provider_status) in
      elim (provider_failure provider) [
        | some (disposition, reason) ↦
            some (result disposition (some "provider") 100 (some reason) none)
        | none ↦ answered_outcome provider (lower (text_of answered_by)) segments
      ]
