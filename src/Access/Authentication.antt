-- ===== src/Access/Authentication.antt =====
-- auth.js, tenant-scoped requests: authenticateTenantRequest, rejectUnauthorizedTenant and
-- hasCapability. Third-party calls are parameters: `scrypt` derives a key from a secret, a salt and
-- the three costs and encodes it in base64url (none where it throws), `parse_date` is Date.parse.
-- What the database answers is an argument of each query. Texts are compared as equal bytes.
-- The write of last_used_at, whose answer is ignored, is left out, as are the client's roles and revision.
-- Not modelled: the operator key (isAuthorized), the hashing of new secrets, Twilio's signatures.
pub mod Laws
pub mod Admission
pub mod Tests
use Prim.Native.Char.{code}
use communications_service.Prelude.{
  ℕ, String, Bool, true, false, not, ◌&&◌, ◌||◌, Option, none, some, List, [], ◌∷◌, if◌then◌else◌,
  eqb, leb, Outcome, thrown, returned, ensure, ◌>>=◌, ◌>>◌,
}
use communications_service.Prelude.Text.{same, filled, truthy, same?, includes, trim}
use communications_service.Access.TenantContext.{
  Request, Requested, unnamed, names, conflicting, tenant_from_request,
}

-- A row of api_clients.
pub record Client : Type 0 where
  pub revoked_at : Option String
  pub expires_at : Option String
  pub secret_hash : String
  pub allowed_tenants : Option (List String)
  pub capabilities : Option (List String)
  pub managed_tenant_id : Option String

-- The answer of a query for at most one row.
pub data Lookup {ℓ} (A : Type ℓ) : Type ℓ where
  broken missing : Lookup A
  found : A → Lookup A

-- The refusals, with their status.
pub data Refusal : Type 0 where
  invalid_key_401 bad_tenant_400 legacy_unset_503 foreign_tenant_403 : Refusal
  unavailable_503 tenant_required_400 not_configured_503 : Refusal
  state_unavailable_503 suspended_403 exhausted_429 changed_401 usage_unavailable_503 : Refusal

pub record Auth : Type 0 where
  pub tenant_id : String
  pub key_id : String
  pub capabilities : List String
  pub managed_tenant : Option String

-- `value.split('$')`
pub split_dollar : String → List String
split_dollar String.[] = "" ∷ []
split_dollar (String.◌∷◌ c s) =
    let rest = split_dollar s in
    if eqb (code c) 36
    then "" ∷ rest
    else elim rest [ [] ↦ [] | part ∷ parts ↦ String.◌∷◌ c part ∷ parts ]

-- The text before and after the first dot.
split_dot : String → Option (String × String)
split_dot String.[] = none
split_dot (String.◌∷◌ c s) =
    let rest = split_dot s in
    if eqb (code c) 46
    then some ("", s)
    else elim rest [ none ↦ none | some (before, after) ↦ some (String.◌∷◌ c before, after) ]

-- A key `<key_id>.<secret>` whose key id is not empty.
pub key_parts : String → Option (String × String)
unfolding split_dot
key_parts provided = elim (split_dot provided) [
  | none ↦ none
  | some (key_id, secret) ↦ if filled key_id then some (key_id, secret) else none
]

or_refused {ℓ} : {A : Type ℓ} → Option A → Refusal → Outcome Refusal A
or_refused none e = thrown e
or_refused (some a) e = returned a

requested_of : Requested → Outcome Refusal (Option String)
requested_of unnamed = returned none
requested_of (names t) = returned (some t)
requested_of conflicting = thrown bad_tenant_400

unfoldable pub allows : Option (List String) → String → Bool
allows none t = false
allows (some ts) t = includes ts t

or_empty : Option (List String) → List String
or_empty none = []
or_empty (some xs) = xs

-- The legacy key stands for one tenant.
legacy : (legacy_tenant : String) → (requested : Option String) → Outcome Refusal Auth
legacy legacy_tenant requested =
    let tenant = trim legacy_tenant in
    do
      ensure (filled tenant) legacy_unset_503
      ensure (not (truthy requested) || same? requested (some tenant)) foreign_tenant_403
      returned (record {
        tenant_id = tenant;
        key_id = "legacy";
        capabilities = "*" ∷ [];
        managed_tenant = none;
      })

client_of : Lookup Client → Outcome Refusal Client
client_of broken = thrown unavailable_503
client_of missing = thrown invalid_key_401
client_of (found client) = returned client

module _ (scrypt : (secret salt n r p : String) → Option String)
    (parse_date : String → Option ℕ) where
  derives : (secret salt n r p expected : String) → Bool
  derives secret salt n r p expected = elim (scrypt secret salt n r p) [
    | none ↦ false
    | some derived ↦ same derived expected
  ]

  -- `verifyApiSecret`
  verify_api_secret : String → String → Bool
  unfolding derives split_dollar
  verify_api_secret secret encoded = elim (split_dollar encoded) [
    | algorithm ∷ n ∷ r ∷ p ∷ salt ∷ expected ∷ rest ↦
        same algorithm "scrypt"
        && filled salt
        && filled expected
        && derives secret salt n r p expected
    | _ ↦ false
  ]

  expired : Option String → ℕ → Bool
  expired none now = false
  expired (some date) now =
      filled date && elim (parse_date date) [ none ↦ true | some t ↦ leb t now ]

  pub usable : Client → (secret : String) → (now : ℕ) → Bool
  unfolding expired verify_api_secret
  usable client secret now =
      not (truthy client.revoked_at)
      && not (expired client.expires_at now)
      && verify_api_secret secret client.secret_hash

  -- A client's own key, after the key id has been looked up.
  pub registered :
      (key_id secret : String)
      → (requested : Option String) → Lookup Client
      → (now : ℕ) → Outcome Refusal Auth
  unfolding usable client_of or_refused or_empty
  registered key_id secret requested lookup now = do
    client ← client_of lookup
    ensure (usable client secret now) invalid_key_401
    tenant ← or_refused requested tenant_required_400
    ensure (allows client.allowed_tenants tenant) foreign_tenant_403
    returned (record {
      tenant_id = tenant;
      key_id = key_id;
      capabilities = or_empty client.capabilities;
      managed_tenant = client.managed_tenant_id;
    })

  by_client :
      (provided : String)
      → (requested : Option String) → (db : Bool) → (String → Lookup Client)
      → (now : ℕ) → Outcome Refusal Auth
  unfolding registered key_parts or_refused
  by_client provided requested db clients now = do
    parts ← or_refused (key_parts provided) invalid_key_401
    ensure db invalid_key_401
    registered parts.0 parts.1 requested (clients parts.0) now

  -- Once the tenant that the request names is known.
  by_key :
      (api_key : Option String)
      → (legacy_tenant : String) → (provided : String) → (requested : Option String) → (db : Bool)
      → (clients : String → Lookup Client) → (now : ℕ) → Outcome Refusal Auth
  unfolding legacy by_client
  by_key api_key legacy_tenant provided requested db clients now =
      if truthy api_key && same? api_key (some provided)
      then legacy legacy_tenant requested
      else by_client provided requested db clients now

  -- `authenticateTenantRequest`: `api_key` and `legacy_tenant` are the environment's, `provided` is
  -- the key in the header ('' if there is none), `clients` the table as the query meets it.
  pub authenticate :
      (api_key : Option String)
      → (legacy_tenant : String) → (provided : String) → Request
      → (db : Bool) → (clients : String → Lookup Client) → (now : ℕ) → Outcome Refusal Auth
  unfolding requested_of by_key
  authenticate api_key legacy_tenant provided request db clients now = do
    ensure (filled provided) invalid_key_401
    requested ← requested_of (tenant_from_request request)
    by_key api_key legacy_tenant provided requested db clients now

-- The paths that cost no budget.
abbrev control_paths : List String
control_paths =
    "/v1/tenant/clients" ∷ "/v1/tenant/audit" ∷ "/v1/tenant/usage" ∷ "/v1/tenant/lifecycle" ∷ []

-- The answer of claim_tenant_api_request.
pub data Budget : Type 0 where
  granted used_up credential_changed budget_failed : Budget

check_state : Lookup String → Outcome Refusal (Unit {0})
check_state broken = thrown state_unavailable_503
check_state missing = thrown suspended_403
check_state (found status) = ensure (same status "active") suspended_403

check_budget : Budget → Outcome Refusal (Unit {0})
check_budget granted = returned tt
check_budget used_up = thrown exhausted_429
check_budget credential_changed = thrown changed_401
check_budget budget_failed = thrown usage_unavailable_503

pub needs_state : (db : Bool) → (path : String) → Bool
needs_state db path = db && not (same path "/v1/tenant/lifecycle")

pub needs_budget : Auth → (path : String) → Bool
needs_budget auth path = truthy auth.managed_tenant && not (includes control_paths path)

-- `rejectUnauthorizedTenant` after the authentication; `path` is the route's, without its query.
pub admit :
    (db : Bool)
    → (path : String) → (tenants : String → Lookup String) → (budget : Auth → Budget) → Auth
    → Outcome Refusal Auth
unfolding needs_state needs_budget check_state check_budget
admit db path tenants budget auth = do
  if needs_state db path then check_state (tenants auth.tenant_id) else returned tt
  if needs_budget auth path then check_budget (budget auth) else returned tt
  returned auth

-- `rejectUnauthorizedTenant`: a request that goes on has the returned authentication.
pub reject_unauthorized_tenant :
    (scrypt : (secret salt n r p : String) → Option String)
    → (parse_date : String → Option ℕ) → (api_key : Option String) → (legacy_tenant : String)
    → (provided : String) → Request
    → (db : Bool) → (clients : String → Lookup Client) → (now : ℕ) → (path : String)
    → (tenants : String → Lookup String) → (budget : Auth → Budget) → Outcome Refusal Auth
unfolding authenticate admit
reject_unauthorized_tenant scrypt parse_date api_key legacy_tenant provided request db clients now
      path tenants budget =
    do
      ensure (truthy api_key || db) not_configured_503
      auth ← authenticate scrypt parse_date api_key legacy_tenant provided request db clients now
      admit db path tenants budget auth

-- `hasCapability`
pub has_capability : Auth → String → Bool
has_capability auth capability =
    includes auth.capabilities "*" || includes auth.capabilities capability
