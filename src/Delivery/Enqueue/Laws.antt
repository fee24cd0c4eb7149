-- ===== src/Delivery/Enqueue/Laws.antt =====
-- eventOutbox.js: `enqueueEvent`.
use communications_service.Prelude.{
  String, Option, none, some, List, [], ◌∷◌, ◌++◌, find, ◌≡◌, arith, subst, ◌⊎◌, ◌&&◌, Option-cases,
  Bool-cases, All, All-append, inl, inr, sym,
}
use communications_service.Prelude.Text.{same, truthy, or_else}
use communications_service.Delivery.Enqueue.{
  Request, Event, Settings, Faults, has_key, stored_event, upsert, store_once, store, enqueue_to,
  enqueue_event,
}

module _ {κ} {P : Type κ} where
  -- A call leaves the queue as it was, or adds the request's event.
  abbrev Grown : Request P → (events after : List (Event P)) → Type κ
  Grown r events after =
      (after ≡ events)
      ⊎ ((tenant : String) × (target : String) × (after
            ≡ events ++ (stored_event tenant target r events ∷ [])))

  upsert-Grown :
      (tenant target key : String) (r : Request P) (events : List (Event P))
      → Grown r events (upsert key (stored_event tenant target r events) events)
  unfolding upsert
  upsert-Grown tenant target key r events =
      elim (Option-cases
        (find (has_key (stored_event tenant target r events).tenant_id key) events)) [
          | inl e ↦ inr (tenant, target, ground arith)
          | inr (found, e) ↦ inl (ground arith)
        ]

  store-Grown :
      (faults : Faults) (dedupe : Option String) (tenant target : String) (r : Request P)
      (events : List (Event P))
      → Grown r events (store faults dedupe (stored_event tenant target r events) events).0
  unfolding store store_once
  store-Grown faults none tenant target r events = elim (Bool-cases faults.store_fails) [
    | inl e ↦ inl (ground arith)
    | inr e ↦ inr (tenant, target, ground arith)
  ]
  store-Grown faults (some key) tenant target r events = elim (Bool-cases faults.store_fails) [
    | inl e ↦ inl (ground arith)
    | inr e ↦ elim (upsert-Grown tenant target key r events) [
      | inl same ↦ inl (ground arith)
      | inr (t, u, added) ↦ inr (t, u, ground arith)
    ]
  ]

  transport-Grown :
      (r : Request P) (events stored after : List (Event P))
      → after ≡ stored
      → Grown r events stored
      → Grown r events after
  transport-Grown r events stored after e g = subst (Grown r events) (sym e) g

  enqueue_to-Grown :
      (settings : Settings) (faults : Faults) (target : String) (r : Request P)
      (events : List (Event P))
      → Grown r events (enqueue_to settings faults target r events).0
  unfolding enqueue_to
  enqueue_to-Grown settings faults target r events =
      elim (Option-cases
        (or_else r.tenant_id (or_else r.correlation_tenant settings.legacy_tenant))) [
          | inl e ↦ inl (ground arith)
          | inr (tenant, e) ↦ elim (Bool-cases (settings.has_secret && truthy (some tenant))) [
            | inl t ↦
                transport-Grown r events _ _ (ground arith)
                  (store-Grown faults r.dedupe_key tenant target r events)
            | inr f ↦ inl (ground arith)
          ]
        ]

  enqueue_event-Grown :
      (settings : Settings) (faults : Faults) (r : Request P) (events : List (Event P))
      → Grown r events (enqueue_event settings faults r events).0
  unfolding enqueue_event
  enqueue_event-Grown settings faults r events =
      elim (Option-cases (or_else r.destination settings.event_url)) [
        | inl e ↦ inl (ground arith)
        | inr (target, e) ↦ elim (Bool-cases (settings.connected && truthy (some target))) [
          | inl t ↦
              transport-Grown r events _ _ (ground arith)
                (enqueue_to-Grown settings faults target r events)
          | inr f ↦ inl (ground arith)
        ]
      ]

  -- A property of what is stored and of the new event holds of all events after a call.
  pub enqueue_event-All {μ} :
      (holds : Event P → Type μ) (settings : Settings) (faults : Faults) (r : Request P)
      (events : List (Event P))
      → ((tenant target : String) → holds (stored_event tenant target r events))
      → All holds events
      → All holds (enqueue_event settings faults r events).0
  enqueue_event-All holds settings faults r events new old =
      elim (enqueue_event-Grown settings faults r events) [
        | inl e ↦ subst (All holds) (sym e) old
        | inr (tenant, target, e) ↦ subst (All holds) (sym e) (
            All-append holds events (stored_event tenant target r events ∷ []) old
              (new tenant target, tt))
      ]
