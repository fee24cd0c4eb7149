-- ===== src/Delivery/Enqueue.antt =====
-- eventOutbox.js: `enqueueEvent` and `callbackForThread`, on the rows of outbound_events. `prefixedId`
-- gives a new id each time: events are numbered in the order in which they are stored. A row keeps
-- the request's payload; the envelope around it repeats the other fields. An error is its message.
pub mod Laws
use communications_service.Prelude.{
  ℕ, String, Bool, true, false, not, ◌&&◌, ◌||◌, Option, none, some, List, [], ◌∷◌, ◌++◌, find,
  length, if◌then◌else◌, Outcome, thrown, returned,
}
use communications_service.Prelude.Text.{same, truthy, or_else}

module _ {κ} (P : Type κ) where
  pub record Request : Type κ where
    pub tenant_id : Option String
    pub type : String
    pub destination : Option String
    pub dedupe_key : Option String
    pub correlation_tenant : Option String
    pub payload : P

  pub record Event : Type κ where
    pub event_id : ℕ
    pub tenant_id : String
    pub type : String
    pub destination : String
    pub dedupe_key : Option String
    pub payload : P

-- The process: its database, HYPERFLOW_EVENT_URL, COMMUNICATIONS_WEBHOOK_SECRET, LEGACY_TENANT_ID.
pub record Settings : Type 0 where
  pub connected : Bool
  pub event_url : Option String
  pub has_secret : Bool
  pub legacy_tenant : Option String

-- Which of its two queries fails, if they are made.
pub record Faults : Type 0 where
  pub store_fails : Bool
  pub confirm_fails : Bool

module _ {κ} {P : Type κ} where
  unfoldable pub has_key : (tenant key : String) → Event P → Bool
  has_key tenant key event =
      same event.tenant_id tenant && elim event.dedupe_key [ none ↦ false | some k ↦ same k key ]

  unfoldable pub stored_event : (tenant target : String) → Request P → List (Event P) → Event P
  stored_event tenant target r events = record {
    event_id = length events;
    tenant_id = tenant;
    type = r.type;
    destination = target;
    dedupe_key = r.dedupe_key;
    payload = r.payload;
  }

  -- The row is inserted, or ignored where its key is taken.
  unfoldable pub upsert : (key : String) → Event P → List (Event P) → List (Event P)
  unfolding has_key
  upsert key event events = elim (find (has_key event.tenant_id key) events) [
    | some e ↦ events
    | none ↦ events ++ (event ∷ [])
  ]

  -- With a key: what is stored under it is read back.
  unfoldable pub store_once :
      Faults
      → (key : String) → Event P
      → List (Event P)
      → List (Event P) × Outcome String (Option ℕ)
  unfolding upsert has_key
  store_once faults key event events =
      let after = upsert key event events in
      if faults.store_fails
      then (events, thrown "Could not enqueue")
      else if faults.confirm_fails
      then (after, thrown "Could not confirm deduplication")
      else (
        after,
        returned (
            some (elim (find (has_key event.tenant_id key) after) [
              | some e ↦ e.event_id
              | none ↦ event.event_id
            ])),
      )

  unfoldable pub store :
      Faults → Option String → Event P → List (Event P) → List (Event P) × Outcome String (Option ℕ)
  unfolding store_once
  store faults none event events =
      if faults.store_fails
      then (events, thrown "Could not enqueue")
      else (events ++ (event ∷ []), returned (some event.event_id))
  store faults (some key) event events = store_once faults key event events

  unfoldable pub enqueue_to :
      Settings
      → Faults
      → (target : String) → Request P
      → List (Event P)
      → List (Event P) × Outcome String (Option ℕ)
  unfolding store stored_event
  enqueue_to settings faults target r events =
      if not settings.has_secret
      then (events, thrown "COMMUNICATIONS_WEBHOOK_SECRET is required for durable webhook delivery")
      else elim (or_else r.tenant_id (or_else r.correlation_tenant settings.legacy_tenant)) [
        | none ↦ (events, thrown "tenant_id is required for durable webhook delivery")
        | some tenant ↦
            if not (truthy (some tenant))
            then (events, thrown "tenant_id is required for durable webhook delivery")
            else store faults r.dedupe_key (stored_event tenant target r events) events
      ]

  -- `enqueueEvent`: the events stored after it, and the id of the event it returns.
  unfoldable pub enqueue_event :
      Settings → Faults → Request P → List (Event P) → List (Event P) × Outcome String (Option ℕ)
  unfolding enqueue_to
  enqueue_event settings faults r events = elim (or_else r.destination settings.event_url) [
    | none ↦ (events, returned none)
    | some target ↦
        if settings.connected && truthy (some target)
        then enqueue_to settings faults target r events
        else (events, returned none)
  ]

-- Without a thread, the one argument is the thread.
own_or : (otherwise value thread_id : Option String) → Option String
own_or otherwise value none = otherwise
own_or otherwise value (some t) = value

-- `callbackForThread` with a tenant and a thread that may be missing; `callback` is the row's url.
unfoldable pub callback_for_thread :
    Settings
    → (fails : Bool) (callback : Option String) (tenant_id thread_id : Option String)
    → Outcome String (Option String)
unfolding own_or
callback_for_thread settings fails callback tenant_id thread_id =
    let tenant = own_or settings.legacy_tenant tenant_id thread_id in
    let thread = own_or tenant_id thread_id thread_id in
    if not settings.connected || not (truthy thread)
    then returned none
    else if not (truthy tenant)
    then thrown "tenant_id is required for thread callback lookup"
    else if fails
    then thrown "Could not read thread callback"
    else returned (if truthy callback then callback else none)
