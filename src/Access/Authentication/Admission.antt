-- ===== src/Access/Authentication/Admission.antt =====
-- auth.js, rejectUnauthorizedTenant: the checks after the key.
use communications_service.Prelude.{
  ℕ, String, Bool, true, false, Option, List, [], ◌∷◌, ◌≢◌, ◌≡◌, refl, ap, ◌⊎◌, inl, inr, arith,
  Bool-cases, Outcome, thrown, ◌||◌, returned, ◌>>◌, >>-ensure, >>=-returned, eq_iff, if◌then◌else◌,
}
use communications_service.Prelude.Text.{truthy, includes, same}
use communications_service.Access.TenantContext.{Request}
use communications_service.Access.Authentication.{
  Client, Lookup, found, missing, broken, Refusal, Auth, authenticate, Budget, granted, check_state,
  check_budget, needs_state, needs_budget, admit, reject_unauthorized_tenant,
}
use communications_service.Access.Authentication.Laws.{IsLegacy, IsClient, authenticate-cases}

-- The paths of a tenant's own affairs, which cost no budget.
abbrev unmetered : List String
unmetered =
    "/v1/tenant/clients" ∷ "/v1/tenant/audit" ∷ "/v1/tenant/usage" ∷ "/v1/tenant/lifecycle" ∷ []

-- The tenant is active and the budget granted, where the path asks for these.
pub record IsAdmitted (db : Bool) (path : String) (tenants : String → Lookup String)
    (budget : Auth → Budget) (auth : Auth) : Type 0 where
  pub active : db ≡ true → path ≢ "/v1/tenant/lifecycle" → tenants auth.tenant_id ≡ found "active"
  pub paid :
      truthy auth.managed_tenant ≡ true → includes unmetered path ≡ false → budget auth ≡ granted

check_state-eq :
    (l : Lookup String) (u : Unit {0}) → check_state l ≡ returned u → l ≡ found "active"
unfolding check_state
check_state-eq broken u h = cc
check_state-eq missing u h = cc
check_state-eq (found s) u h = elim (Bool-cases (same s "active")) [
  | inl e ↦ ap found ((eq_iff s "active").0 e)
  | inr e ↦ absurd (cc (rw e at h))
]

check_budget-eq : (b : Budget) (u : Unit {0}) → check_budget b ≡ returned u → b ≡ granted
unfolding check_budget
check_budget-eq granted u h = refl
check_budget-eq b u h = cc

checked {ℓ} :
    (needed : Bool) (check : Outcome Refusal (Unit {0})) {A : Type ℓ} (next : Outcome Refusal A)
    {a : A}
    → ((if needed then check else returned tt) >> next) ≡ returned a
    → (needed ≡ true → check ≡ returned tt) × (next ≡ returned a)
checked true (thrown e) next h = cc
checked true (returned u) next h = (λ e. refl, h)
checked false check next h = (λ e. cc, h)

state_needed :
    (db : Bool) (path : String)
    → db ≡ true
    → path ≢ "/v1/tenant/lifecycle"
    → needs_state db path ≡ true
unfolding needs_state
state_needed db path d n = elim (Bool-cases (same path "/v1/tenant/lifecycle")) [
  | inl e ↦ absurd (n ((eq_iff path "/v1/tenant/lifecycle").0 e))
  | inr e ↦ ground arith
]

admit-IsAdmitted :
    (db : Bool) (path : String) (tenants : String → Lookup String) (budget : Auth → Budget)
    (auth out : Auth)
    → admit db path tenants budget auth ≡ returned out
    → (auth ≡ out) × IsAdmitted db path tenants budget auth
unfolding admit needs_budget
admit-IsAdmitted db path tenants budget auth out h =
    let (a, h₁) = checked (needs_state db path) (check_state (tenants auth.tenant_id)) _ h in
    let (p, h₂) = checked (needs_budget auth path) (check_budget (budget auth)) _ h₁ in
    (
      ground arith,
      record {
        active = λ d n. check_state-eq (tenants auth.tenant_id) tt (a (state_needed db path d n));
        paid = λ m u. check_budget-eq (budget auth) tt (p (ground arith));
      },
    )

-- A request that goes on acts for the tenant of the legacy key, if it came with that key and names no
-- other tenant, or else for the tenant that it names, with a client's key: the client has no time of
-- revocation, and no time of expiry or one still to come; the secret derives, with the salt and the
-- costs of the client's stored hash, to what that hash ends in; and the client's list has the tenant.
-- Unless the path is that of the tenant's lifecycle, or there is no database, the tenant is active;
-- and a managed client's request, except on the paths of the tenant's own affairs, has been granted
-- its budget.
pub reject_unauthorized_tenant-IsAdmitted :
    (scrypt : (secret salt n r p : String) → Option String) (parse_date : String → Option ℕ)
    (api_key : Option String) (legacy_tenant provided : String) (request : Request) (db : Bool)
    (clients : String → Lookup Client) (now : ℕ) (path : String) (tenants : String → Lookup String)
    (budget : Auth → Budget) (auth : Auth)
    → reject_unauthorized_tenant scrypt parse_date api_key legacy_tenant provided request db clients
        now path tenants budget
      ≡ returned auth
    → (IsLegacy api_key legacy_tenant provided request auth
        ⊎ IsClient scrypt parse_date provided request clients now auth)
      × IsAdmitted db path tenants budget auth
unfolding reject_unauthorized_tenant
reject_unauthorized_tenant-IsAdmitted scrypt parse_date api_key legacy_tenant provided request db
      clients now path tenants budget auth h =
    let (_, h₁) = >>-ensure (truthy api_key || db) _ _ h in
    let (own, known, h₂) =
      >>=-returned
        (authenticate scrypt parse_date api_key legacy_tenant provided request db clients now) _
        h₁ in
    let (q, admitted) = admit-IsAdmitted db path tenants budget own auth h₂ in
    (
      authenticate-cases scrypt parse_date api_key legacy_tenant provided request db clients now
          auth (rw q at known),
      rw q at admitted,
    )
