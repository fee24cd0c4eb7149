-- ===== src/Access/TenantContext/Tables.antt =====
-- tenantContext.js: the tables and the procedures that belong to tenants.
use communications_service.Prelude.{String, List, [], ◌∷◌}

abbrev pub tenant_tables : List String
tenant_tables =
    "review_source_snapshots" ∷ "operational_classifications" ∷ "operational_candidates"
    ∷ "operational_objects" ∷ "review_sessions" ∷ "review_actions" ∷ "review_tasks" ∷ "promise_jobs"
    ∷ "promise_evidence" ∷ "promise_history" ∷ "contacts" ∷ "contact_config" ∷ "phone_configs"
    ∷ "calls" ∷ "sms_threads" ∷ "sms_messages" ∷ "tool_calls" ∷ "recordings" ∷ "projects"
    ∷ "project_contacts" ∷ "communications" ∷ "communication_identities" ∷ "communication_threads"
    ∷ "communication_thread_members" ∷ "ask_bindings" ∷ "outbound_operations" ∷ "outbound_events"
    ∷ "calendar_events" ∷ "calendar_event_participants" ∷ "communication_commitments"
    ∷ "communication_facts" ∷ "communication_enrichment_jobs" ∷ "call_outcome_jobs"
    ∷ "provider_connections" ∷ "service_identities" ∷ "webhook_receipts" ∷ "communication_jobs"
    ∷ "communication_attachments" ∷ "email_messages" ∷ "email_reply_routes"
    ∷ "mailbox_oauth_credentials" ∷ "mailbox_sync_state" ∷ "mailbox_oauth_states" ∷ "mailbox_drafts"
    ∷ "mailbox_audit_events" ∷ "mailbox_draft_update_receipts" ∷ "communication_thread_participants"
    ∷ "thread_resolution_decisions" ∷ "thread_resolution_feedback" ∷ "recording_revisions"
    ∷ "tenant_admin_audit" ∷ "tenant_api_budgets" ∷ "tenant_api_usage" ∷ "tenant_lifecycle_receipts"
    ∷ []

abbrev pub tenant_rpcs : List String
tenant_rpcs =
    "store_review_sources" ∷ "configure_review_owner" ∷ "refresh_review_session"
    ∷ "create_review_session" ∷ "record_review_action_result" ∷ "queue_review_action"
    ∷ "store_operational_classification" ∷ "respond_operational_review"
    ∷ "transition_operational_promise" ∷ "mutate_promise" ∷ "reconcile_promise_jobs"
    ∷ "commit_promise_job" ∷ "review_promise" ∷ "configure_promise_ledger"
    ∷ "create_communication_contact" ∷ "ingest_calendar_event" ∷ "ingest_transcribed_meeting"
    ∷ "requeue_communication_enrichment" ∷ "resolve_communication_ask" ∷ "search_communications"
    ∷ "suggest_terms" ∷ "consume_mailbox_oauth_state" ∷ "claim_mailbox_sync"
    ∷ "claim_mailbox_draft_update" ∷ "finalize_mailbox_draft_update"
    ∷ "release_mailbox_draft_update" ∷ "correct_communication_thread"
    ∷ "update_communication_thread_register" ∷ "read_communication_thread_register" ∷ []
