-- ===== src/Access/ReviewIdentity.antt =====
-- reviewIdentity.js: on whose behalf a review runs and what it may see. The tenant's policy is the
-- `promise_ledger` object of its metadata; `review_owners` maps a client's key to a binding.
pub mod Laws
pub mod Shown
pub mod Tests
use Prim.Native.String.{◌++◌ as ◌<>◌}
use communications_service.Prelude.{
  String, Bool, true, false, not, ◌&&◌, ◌||◌, Option, none, some, List, [], ◌∷◌, if◌then◌else◌,
  keep, any, Outcome, thrown, returned, ensure, >>=-returned, Outcome-cases, ◌>>=◌, ◌>>◌, inl, inr,
  Bool-cases,
}
use communications_service.Prelude.Text.{truthy, same?, includes}
use communications_service.Storage.Json.{Fields}
use communications_service.Access.Scope.{Scope, promise_scope}

pub record Binding : Type 0 where
  pub enabled : Bool
  pub person_id : Option String
  pub project_ids : Option (List String)
  pub include_private : Bool

pub record Policy : Type 0 where
  pub review_owners : String → Option Binding
  pub owner_review_disabled : Bool
  pub project_ids : Option (List String)

pub data Refusal : Type 0 where
  invalid_400 : String → Refusal
  disabled_403 revoked_403 project_unavailable_403 : Refusal
  needs_private_403 identity_changed_403 project_revoked_403 scope_changed_403 : Refusal

pub record Identity : Type 0 where
  pub owner : String
  pub scope : Scope

-- `${keyId}:user:${initiator}`
pub binding_key : String → Option String → String
binding_key key_id none = key_id
binding_key key_id (some initiator) =
    if truthy (some initiator) then ◌<>◌ key_id (◌<>◌ ":user:" initiator) else key_id

-- The projects that both lists allow; a missing list allows all.
pub restrict : Option (List String) → Option (List String) → Option (List String)
restrict scope none = scope
restrict none (some ids) = some ids
restrict (some allowed) (some ids) = some (keep (includes ids) allowed)

-- `list && !list.includes(project)`
unfoldable pub outside : Option (List String) → Option String → Bool
outside none project = false
outside (some ids) none = true
outside (some ids) (some p) = not (includes ids p)

text_of : Option String → String
text_of none = "undefined"
text_of (some s) = s

narrowed : Policy → Binding → Scope → Scope
unfolding restrict
narrowed policy binding scope = record scope {
  person_id = binding.person_id;
  allowed_project_ids =
      restrict (restrict scope.allowed_project_ids binding.project_ids) policy.project_ids;
  include_private = scope.include_private && binding.include_private;
}

bound : Policy → Binding → Scope → Outcome Refusal Identity
unfolding narrowed outside text_of
bound policy binding scope =
    let s = narrowed policy binding scope in
    if not binding.enabled || not (truthy binding.person_id)
    then thrown revoked_403
    else if truthy s.external_project_id && outside s.allowed_project_ids s.external_project_id
    then thrown project_unavailable_403
    else returned (record { owner = ◌<>◌ "person:" (text_of binding.person_id); scope = s })

identified : Policy → String → Option Binding → Scope → Outcome Refusal Identity
unfolding bound
identified policy key binding scope =
    if policy.owner_review_disabled then thrown disabled_403 else elim binding [
      | none ↦ returned (record { owner = ◌<>◌ "client:" key; scope = scope })
      | some b ↦ bound policy b scope
    ]

-- `reviewIdentity`: `input` is the request, `initiator` its `initiator_id`.
pub review_identity :
    Policy → (key_id : String) → (initiator : Option String) → Fields → Outcome Refusal Identity
unfolding identified
review_identity policy key_id initiator input =
    let key = binding_key key_id initiator in
    elim (promise_scope input) [
      | thrown message ↦ thrown (invalid_400 message)
      | returned scope ↦ identified policy key (policy.review_owners key) scope
    ]

-- The stored list reaches beyond the current one, or was not restricted.
unfoldable pub exceeds : Option (List String) → List String → Bool
exceeds none current = true
exceeds (some stored) current = any (λ id. not (includes current id)) stored

unfoldable pub within_projects : Scope → Option (List String) → Outcome Refusal Scope
unfolding exceeds
within_projects stored none = returned stored
within_projects stored (some ids) =
    if truthy stored.external_project_id && outside (some ids) stored.external_project_id
    then thrown project_revoked_403
    else if not (truthy stored.external_project_id) && exceeds stored.allowed_project_ids ids
    then thrown scope_changed_403
    else returned (record stored { allowed_project_ids = some ids })

-- `currentSessionScope`
unfoldable pub current_session_scope : (stored current : Scope) → Outcome Refusal Scope
unfolding within_projects
current_session_scope stored current =
    if stored.include_private && not current.include_private
    then thrown needs_private_403
    else if truthy current.person_id && not (same? current.person_id stored.person_id)
    then thrown identity_changed_403
    else within_projects stored current.allowed_project_ids
