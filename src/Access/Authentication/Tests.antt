-- ===== src/Access/Authentication/Tests.antt =====
-- A client with a key of its own, and the legacy key.
use communications_service.Prelude.{
  ℕ, String, true, Option, none, some, [], ◌∷◌, ◌≡◌, ◌⊎◌, refl, thrown, any, all,
}
use communications_service.Prelude.Text.{includes, has_text, trim}
use communications_service.Storage.Json.{undefined, text, get}
use communications_service.Access.TenantContext.{
  Request, candidate, candidates, agreed, tenant_from_request,
}
use communications_service.Access.Authentication.{
  Client, Lookup, found, Auth, split_dollar, split_dot, key_parts, or_refused, requested_of, allows,
  or_empty, legacy, derives, verify_api_secret, expired, usable, client_of, registered, by_client,
  by_key, check_state, check_budget, needs_state, needs_budget, admit, foreign_tenant_403, Budget,
  granted, authenticate, reject_unauthorized_tenant,
}
use communications_service.Access.Authentication.Laws.{IsLegacy, IsClient}
use communications_service.Access.Authentication.Admission.{
  IsAdmitted, reject_unauthorized_tenant-IsAdmitted,
}

-- A stand-in for the derivation: the secret itself, for the salt "salt".
abbrev scrypt : (secret salt n r p : String) → Option String
scrypt secret salt n r p = some secret

abbrev parse_date : String → Option ℕ
parse_date date = some 5000

abbrev client : Client
client = record {
  revoked_at = none;
  expires_at = some "2027-01-01";
  secret_hash = "scrypt$16384$8$1$salt$hidden";
  allowed_tenants = some ("acme" ∷ "beta" ∷ []);
  capabilities = some ("threads:read" ∷ []);
  managed_tenant_id = some "acme";
}

abbrev clients : String → Lookup Client
clients key_id = found client

abbrev request : Request
request = record { header_tenant = text "acme"; body = undefined; query_tenant = undefined }

abbrev foreign : Request
foreign = record { header_tenant = text "gamma"; body = undefined; query_tenant = undefined }

abbrev tenants : String → Lookup String
tenants tenant = found "active"

abbrev budget : Auth → Budget
budget auth = granted

abbrev auth : Auth
auth = record {
  tenant_id = "acme";
  key_id = "key1";
  capabilities = "threads:read" ∷ [];
  managed_tenant = some "acme";
}

opened : Unit {0}
unfolding split_dollar split_dot key_parts or_refused requested_of allows or_empty legacy derives
    verify_api_secret expired usable client_of registered by_client by_key authenticate check_state
    check_budget needs_state needs_budget admit reject_unauthorized_tenant candidate candidates
    agreed tenant_from_request get includes has_text trim all any
opened = tt

refused_foreign :
    authenticate scrypt parse_date none "" "key1.hidden" foreign true clients 1000
    ≡ thrown foreign_tenant_403
unfolding opened
refused_foreign = refl

reject_unauthorized_tenant-IsAdmitted_example :
    (IsLegacy none "" "key1.hidden" request auth
      ⊎ IsClient scrypt parse_date "key1.hidden" request clients 1000 auth)
    × IsAdmitted true "/v1/threads" tenants budget auth
unfolding opened
reject_unauthorized_tenant-IsAdmitted_example =
    reject_unauthorized_tenant-IsAdmitted scrypt parse_date none "" "key1.hidden" request true
      clients 1000 "/v1/threads" tenants budget auth refl
