-- ===== src/Access/ReviewIdentity/Laws.antt =====
-- reviewIdentity.js: the scope of a bound reviewer.
use communications_service.Prelude.{
  returned, Outcome-cases, String, Bool, true, false, not, ◌&&◌, ◌||◌, Option, none, some, List, [],
  ◌∷◌, ◌≡◌, inl, inr, refl, arith, keep, Bool-cases, subst, eq_iff,
}
use communications_service.Prelude.Text.{truthy, includes, same}
use communications_service.Storage.Json.{Fields}
use communications_service.Access.Scope.{Scope, promise_scope}
use communications_service.Access.ReviewIdentity.{
  Binding, Policy, Identity, binding_key, restrict, outside, narrowed, bound, identified,
  review_identity,
}

-- A list of projects that allows only what another one allows, if that one is set.
abbrev pub IsWithin : Option (List String) → Option (List String) → Type 0
IsWithin allowed none = Unit {0}
IsWithin none (some ids) = ⊥
IsWithin (some allowed) (some ids) =
    (x : String) → includes allowed x ≡ true → includes ids x ≡ true

includes-keep :
    (p : String → Bool) (xs : List String) (x : String)
    → includes (keep p xs) x ≡ true
    → (p x ≡ true) × (includes xs x ≡ true)
unfolding includes keep
includes-keep p [] x h = cc
includes-keep p (y ∷ ys) x h = elim (Bool-cases (p y)) [
  | inl k ↦ elim (Bool-cases (same y x)) [
    | inl e ↦ (subst (λ z. p z ≡ true) ((eq_iff y x).0 e) k, rw e)
    | inr e ↦ let r = includes-keep p ys x (ground arith) in (r.0, rw (e, r.1))
  ]
  | inr k ↦ let r = includes-keep p ys x (ground arith) in (r.0, ground arith)
]

IsWithin-trans : (a b c : Option (List String)) → IsWithin a b → IsWithin b c → IsWithin a c
IsWithin-trans a b none h k = tt
IsWithin-trans a none (some zs) h k = absurd k
IsWithin-trans none (some ys) (some zs) h k = absurd h
IsWithin-trans (some xs) (some ys) (some zs) h k = λ x e. k x (h x e)

restrict-IsWithin :
    (a b : Option (List String)) → IsWithin (restrict a b) a × IsWithin (restrict a b) b
unfolding restrict
restrict-IsWithin none none = (tt, tt)
restrict-IsWithin (some xs) none = (λ x e. e, tt)
restrict-IsWithin none (some ys) = (tt, λ x e. e)
restrict-IsWithin (some xs) (some ys) =
    (λ x e. (includes-keep (includes ys) xs x e).1, λ x e. (includes-keep (includes ys) xs x e).0)

-- What the scope of a bound reviewer satisfies.
pub record IsBound (policy : Policy) (binding : Binding) (requested scope : Scope) : Type 0 where
  pub enabled : binding.enabled ≡ true
  pub person : scope.person_id ≡ binding.person_id
  pub requested_projects : IsWithin scope.allowed_project_ids requested.allowed_project_ids
  pub bound_projects : IsWithin scope.allowed_project_ids binding.project_ids
  pub policy_projects : IsWithin scope.allowed_project_ids policy.project_ids
  pub private : scope.include_private ≡ (requested.include_private && binding.include_private)
  pub conversation : scope.conversation_thread_id ≡ requested.conversation_thread_id
  pub project :
      (truthy scope.external_project_id
        && outside scope.allowed_project_ids scope.external_project_id)
      ≡ false

bound-IsBound :
    (policy : Policy) (binding : Binding) (requested : Scope) (i : Identity)
    → bound policy binding requested ≡ returned i
    → IsBound policy binding requested i.scope
unfolding bound
bound-IsBound policy binding requested i h =
    let s = narrowed policy binding requested in
    let revoked = not binding.enabled || not (truthy binding.person_id) in
    let closed =
      truthy s.external_project_id && outside s.allowed_project_ids s.external_project_id in
    elim (Bool-cases revoked) [
      | inl r ↦ absurd (cc (rw r at h))
      | inr r ↦ elim (Bool-cases closed) [
        | inl c ↦ absurd (cc (rw (r, c) at h))
        | inr c ↦
            let q : s ≡ i.scope = ground arith in
            subst (IsBound policy binding requested) q (within r c)
      ]
    ]
  where
    inner : Option (List String)
    inner = restrict requested.allowed_project_ids binding.project_ids

    within :
        (not binding.enabled || not (truthy binding.person_id)) ≡ false
        → (truthy (narrowed policy binding requested).external_project_id
            && outside
                (narrowed policy binding requested).allowed_project_ids
                (narrowed policy binding requested).external_project_id)
          ≡ false
        → IsBound policy binding requested (narrowed policy binding requested)
    within r c =
        let o = restrict-IsWithin inner policy.project_ids in
        let n = restrict-IsWithin requested.allowed_project_ids binding.project_ids in
        record {
          enabled = ground arith;
          person = refl;
          requested_projects = IsWithin-trans _ _ _ o.0 n.0;
          bound_projects = IsWithin-trans _ _ _ o.0 n.1;
          policy_projects = o.1;
          private = refl;
          conversation = refl;
          project = c;
        }

-- A reviewer with a binding acts as the bound person, sees only projects that the request, the
-- binding and the tenant's policy all allow, and private sources only if the request asks for
-- them and the binding grants them; a single project that is asked for is one of those allowed.
pub review_identity-IsBound :
    (policy : Policy) (key_id : String) (initiator : Option String) (input : Fields)
    (binding : Binding) (i : Identity)
    → policy.review_owners (binding_key key_id initiator) ≡ some binding
    → review_identity policy key_id initiator input ≡ returned i
    → (requested : Scope) × (promise_scope input ≡ returned requested)
      × IsBound policy binding requested i.scope
unfolding review_identity identified
review_identity-IsBound policy key_id initiator input binding i b h =
    elim (Outcome-cases (promise_scope input)) [
      | inl (message, e) ↦ absurd (cc (rw (e, review_identity) at h))
      | inr (requested, e) ↦ elim (Bool-cases policy.owner_review_disabled) [
        | inl off ↦ absurd (cc (rw (e, review_identity, off) at h))
        | inr on ↦ (
          requested,
          e,
          bound-IsBound policy binding requested i (rw (e, review_identity, on, b) at h),
        )
      ]
    ]
