-- ===== src/Access/MemorySafety.antt =====
-- memorySafety.js, `sourceAllowed`: whether a stored communication may be shown under a scope.
-- `parse_date` is Date.parse, none for NaN. The fields of the row's metadata are the answers of the
-- comparisons that the code makes with true and false.
pub mod Laws
use communications_service.Prelude.{
  ℕ, String, Bool, true, false, not, ◌&&◌, ◌||◌, Option, none, some, List, [], ◌∷◌, if◌then◌else◌,
  ltb, leb,
}
use communications_service.Prelude.Text.{truthy, or_else, same?, includes}
use communications_service.Access.Scope.{Scope}

pub record Source : Type 0 where
  pub memory_eligible : Bool
  pub retracted : Bool
  pub intake_pending : Bool
  pub disposition : Option String
  pub channel : Option String
  pub voice_excluded : Bool
  pub marked_private : Bool
  pub visibility : Option String
  pub project_id : Option String
  pub external_project_id : Option String
  pub thread_id : Option String
  pub person_id : Option String
  pub contact_id : Option String
  pub calendar_event_id : Option String
  pub occurred_at : Option String

-- `list.includes(value)` for a value that may be undefined.
unfoldable pub includes? : List String → Option String → Bool
includes? xs none = false
includes? xs (some x) = includes xs x

abbrev pub excluded_dispositions : List String
excluded_dispositions =
    "spam" ∷ "bounce" ∷ "automatic_reply" ∷ "mailing_list" ∷ "system_generated" ∷ "voicemail"
    ∷ "no_answer" ∷ "failed" ∷ []

unfoldable pub is_private : Source → Bool
unfolding includes?
is_private row = row.marked_private || includes? ("private" ∷ "restricted" ∷ []) row.visibility

unfoldable pub is_voice : Source → Bool
is_voice row = same? row.channel (some "voice")

-- An unset restriction of the scope holds of every row.
unfoldable pub fits : Option String → Option String → Bool
fits restriction value = not (truthy restriction) || same? value restriction

unfoldable pub listed : Option (List String) → Option String → Bool
unfolding includes?
listed none value = true
listed (some ids) value = includes? ids value

-- NaN compares as false.
earlier : Option ℕ → Option ℕ → Bool
earlier none t = false
earlier (some s) none = false
earlier (some s) (some t) = ltb s t

not_before : Option ℕ → Option ℕ → Bool
not_before none t = false
not_before (some s) none = false
not_before (some s) (some t) = leb t s

unfoldable pub participant : Source → Option String
participant row = or_else row.person_id row.contact_id

in_projects : Option String → Option (List String) → Bool
unfolding includes?
in_projects project none = false
in_projects project (some ids) = includes? ids project

-- A message of the conversation itself that no project has yet.
unfoldable pub unassigned_conversation : Source → Scope → Bool
unfolding in_projects
unassigned_conversation row scope =
    not (truthy row.project_id)
    && not (truthy row.external_project_id)
    && truthy scope.conversation_thread_id
    && same? row.thread_id scope.conversation_thread_id
    && truthy scope.person_id
    && same? (participant row) scope.person_id
    && truthy scope.external_project_id
    && in_projects scope.external_project_id scope.allowed_project_ids

unfoldable pub eligible : Source → Bool
unfolding includes?
eligible row =
    row.memory_eligible
    && not row.retracted
    && not row.intake_pending
    && not (includes? excluded_dispositions row.disposition)
    && not (is_voice row && row.voice_excluded)

-- The checks on projects, which an unassigned message of the conversation passes.
unfoldable pub in_scope_projects : Source → Scope → Bool
in_scope_projects row scope =
    fits scope.project_id row.project_id
    && (fits scope.external_project_id row.external_project_id || unassigned_conversation row scope)
    && (listed scope.allowed_project_ids row.external_project_id
        || unassigned_conversation row scope)

module _ (parse_date : String → Option ℕ) where
  date : Option String → Option ℕ
  date none = none
  date (some s) = parse_date s

  unfoldable pub in_window : Source → Scope → Bool
  unfolding date earlier not_before
  in_window row scope =
      not (truthy scope.since && earlier (date row.occurred_at) (date scope.since))
      && not (truthy scope.until && not_before (date row.occurred_at) (date scope.until))

  unfoldable pub in_scope_rest : Source → Scope → Bool
  in_scope_rest row scope =
      fits scope.person_id (participant row)
      && fits scope.thread_id row.thread_id
      && fits scope.calendar_event_id row.calendar_event_id
      && listed scope.channels row.channel
      && in_window row scope

  unfoldable pub source_allowed : Option Source → Scope → Bool
  source_allowed none scope = false
  source_allowed (some row) scope =
      eligible row
      && (scope.include_private || not (is_private row))
      && in_scope_projects row scope
      && in_scope_rest row scope
