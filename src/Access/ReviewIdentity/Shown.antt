-- ===== src/Access/ReviewIdentity/Shown.antt =====
-- reviewIdentity.js with memorySafety.js: the sources that a review shows, and stored sessions.
use communications_service.Prelude.{
  returned, ℕ, String, true, not, ◌&&◌, false, [], ◌∷◌, any, eq_iff, subst, Option, none, some,
  List, ◌≡◌, sym, arith, inl, inr, Bool-cases,
}
use communications_service.Prelude.Text.{truthy, includes, same, same?, same?_iff}
use communications_service.Storage.Json.{Fields}
use communications_service.Access.Scope.{Scope, promise_scope}
use communications_service.Access.MemorySafety.{Source, includes?, source_allowed, listed}
use communications_service.Access.MemorySafety.Laws.{source_allowed-projects}
use communications_service.Access.ReviewIdentity.{
  Binding, Policy, Identity, binding_key, review_identity, outside, exceeds, within_projects,
  current_session_scope,
}
use communications_service.Access.ReviewIdentity.Laws.{IsWithin, review_identity-IsBound}

promise_scope-conversation :
    (input : Fields) (s : Scope)
    → promise_scope input ≡ returned s
    → s.conversation_thread_id ≡ none
unfolding promise_scope
promise_scope-conversation input s h = ground arith

IsWithin-includes? :
    (allowed : Option (List String)) (ids : List String) (project : Option String)
    → IsWithin allowed (some ids)
    → listed allowed project ≡ true
    → includes? ids project ≡ true
unfolding listed includes?
IsWithin-includes? none ids project w h = absurd w
IsWithin-includes? (some xs) ids none w h = cc
IsWithin-includes? (some xs) ids (some p) w h = w p h

module _ (parse_date : String → Option ℕ) where
  -- Every source that is shown to a reviewer bound to a list of projects belongs to one of them,
  -- whatever the request asked for.
  pub review-shown :
      (policy : Policy) (key_id : String) (initiator : Option String) (input : Fields)
      (binding : Binding) (ids : List String) (i : Identity) (row : Source)
      → policy.review_owners (binding_key key_id initiator) ≡ some binding
      → binding.project_ids ≡ some ids
      → review_identity policy key_id initiator input ≡ returned i
      → source_allowed parse_date (some row) i.scope ≡ true
      → includes? ids row.external_project_id ≡ true
  review-shown policy key_id initiator input binding ids i row b p h shown =
      let (requested, e, bound) =
        review_identity-IsBound policy key_id initiator input binding i b h in
      let alone : i.scope.conversation_thread_id ≡ none =
        rw bound.conversation (promise_scope-conversation input requested e) in
      IsWithin-includes? i.scope.allowed_project_ids ids row.external_project_id
        (rw p at bound.bound_projects) (source_allowed-projects parse_date row i.scope alone shown)

-- What a stored session's scope satisfies under the rights that the caller has now.
pub record IsCurrent (stored current scope : Scope) : Type 0 where
  pub private : scope.include_private ≡ true → current.include_private ≡ true
  pub person : truthy current.person_id ≡ true → scope.person_id ≡ current.person_id
  pub projects : IsWithin scope.allowed_project_ids current.allowed_project_ids
  -- The session's own project is one that the caller may see now.
  pub project :
      (ids : List String)
      → current.allowed_project_ids ≡ some ids
      → truthy stored.external_project_id ≡ true
      → includes? ids scope.external_project_id ≡ true
  -- A session without a project of its own was not opened over more than the caller may see now.
  pub not_wider :
      (ids : List String)
      → current.allowed_project_ids ≡ some ids
      → truthy stored.external_project_id ≡ false
      → IsWithin stored.allowed_project_ids (some ids)

any-includes :
    (ids ys : List String)
    → any (λ id. not (includes ids id)) ys ≡ false
    → (x : String) → includes ys x ≡ true
    → includes ids x ≡ true
unfolding any includes
any-includes ids [] k x e = cc
any-includes ids (y ∷ ys) k x e = elim (Bool-cases (same y x)) [
  | inl q ↦ subst (λ z. includes ids z ≡ true) ((eq_iff y x).0 q) (ground arith)
  | inr q ↦ any-includes ids ys (ground arith) x (ground arith)
]

exceeds-IsWithin :
    (stored : Option (List String)) (ids : List String)
    → exceeds stored ids ≡ false
    → IsWithin stored (some ids)
unfolding exceeds
exceeds-IsWithin none ids h = cc
exceeds-IsWithin (some xs) ids h = any-includes ids xs h

outside-includes? :
    (ids : List String) (p : Option String) → outside (some ids) p ≡ false → includes? ids p ≡ true
unfolding outside includes?
outside-includes? ids none h = cc
outside-includes? ids (some p) h = ground arith

-- What the check of the projects leaves of the session.
record IsChecked (stored scope : Scope) (ids : List String) : Type 0 where
  project :
      truthy stored.external_project_id ≡ true → includes? ids scope.external_project_id ≡ true
  not_wider :
      truthy stored.external_project_id ≡ false → IsWithin stored.allowed_project_ids (some ids)

within_projects-IsChecked :
    (stored scope : Scope) (ids : List String)
    → within_projects stored (some ids) ≡ returned scope
    → IsChecked stored scope ids
unfolding within_projects
within_projects-IsChecked stored scope ids h =
    let e : scope.external_project_id ≡ stored.external_project_id = ground arith in
    record {
      project = λ t. rw e (outside-includes? ids stored.external_project_id (ground arith));
      not_wider = λ f. exceeds-IsWithin stored.allowed_project_ids ids (ground arith);
    }

within_projects_lem :
    (stored scope : Scope) (allowed : Option (List String))
    → within_projects stored allowed ≡ returned scope
    → (scope.include_private ≡ stored.include_private)
      × (scope.person_id ≡ stored.person_id)
      × IsWithin scope.allowed_project_ids allowed
unfolding within_projects
within_projects_lem stored scope none h = (ground arith, ground arith, tt)
within_projects_lem stored scope (some ids) h =
    let e : scope.allowed_project_ids ≡ some ids = ground arith in
    (ground arith, ground arith, rw e (λ x k. k))

-- A stored session that is taken up again shows private sources only to a caller who may see them
-- now, stays with the caller's own person, and covers only projects that the caller may see now.
-- If it is over one project, the caller may see that project now; if it is not, its list of projects
-- as it was stored has none that the caller may not see now.
pub current_session_scope-IsCurrent :
    (stored current scope : Scope)
    → current_session_scope stored current ≡ returned scope
    → IsCurrent stored current scope
unfolding current_session_scope
current_session_scope-IsCurrent stored current scope h =
    elim (Bool-cases (stored.include_private && not current.include_private)) [
      | inl r ↦ absurd (cc (rw r at h))
      | inr r ↦
          elim (Bool-cases
            (truthy current.person_id && not (same? current.person_id stored.person_id))) [
              | inl q ↦ absurd (cc (rw (r, q) at h))
              | inr q ↦
                  let w =
                    within_projects_lem stored scope current.allowed_project_ids (rw (r, q) at h) in
                  record {
                    private = λ p. ground arith;
                    person = λ t.
                        rw w.1
                          (sym ((same?_iff current.person_id stored.person_id).0 (ground arith)));
                    projects = w.2;
                    project = λ ids e. (checked ids e (rw (r, q) at h)).project;
                    not_wider = λ ids e. (checked ids e (rw (r, q) at h)).not_wider;
                  }
            ]
    ]
  where
    checked :
        (ids : List String)
        → current.allowed_project_ids ≡ some ids
        → within_projects stored current.allowed_project_ids ≡ returned scope
        → IsChecked stored scope ids
    checked ids e k = within_projects-IsChecked stored scope ids (rw e at k)
