-- ===== src/Access/MemorySafety/Laws.antt =====
-- memorySafety.js, sourceAllowed: shown sources and lists of projects.
use communications_service.Prelude.{ℕ, String, true, Option, none, some, ◌≡◌, arith}
use communications_service.Access.Scope.{Scope}
use communications_service.Access.MemorySafety.{
  Source, listed, unassigned_conversation, in_scope_projects, source_allowed,
}

module _ (parse_date : String → Option ℕ) where
  -- Outside a conversation, a source that is shown is listed among the allowed projects.
  pub source_allowed-projects :
      (row : Source) (scope : Scope)
      → scope.conversation_thread_id ≡ none
      → source_allowed parse_date (some row) scope ≡ true
      → listed scope.allowed_project_ids row.external_project_id ≡ true
  unfolding source_allowed in_scope_projects unassigned_conversation
  source_allowed-projects row scope c h = ground arith
