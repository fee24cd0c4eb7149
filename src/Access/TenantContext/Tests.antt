-- ===== src/Access/TenantContext/Tests.antt =====
-- The wrapper on concrete queries, payloads, procedures and requests.
use communications_service.Prelude.{
  String, false, some, List, [], ◌∷◌, ◌≡◌, ◌≢◌, refl, ◌⊎◌, all, any,
}
use communications_service.Prelude.Text.{includes, has_text, trim}
use communications_service.Storage.Json.{
  Value, Fields, undefined, text, number, array, object, nil, cons, end, field, get, put, has,
  truthy_value, defined,
}
use communications_service.Storage.Query.{
  eq, Method, selects, inserts, updates, deletes, filter_by, insert_rows, update_rows, Statement,
  execute, apply,
}
use communications_service.Access.TenantContext.{
  tenant_from, with_tenant, tenant_filter, run_query, scoped_rpc, Request, tenant_from_request,
  call, calls, apply_scope, candidates, agreed,
}
use communications_service.Access.TenantContext.Confinement.{IsConfined, tenant_from-IsConfined}
use communications_service.Access.TenantContext.Calls.{
  names_other, refused, with_tenant-refuses, scoped_rpc-tenant, Agrees, tenant_from_request-Agrees,
}

opened : Unit {0}
unfolding run_query calls call apply_scope tenant_filter apply execute get put has defined includes
    scoped_rpc tenant_from_request candidates agreed trim has_text with_tenant all any tenant_from
opened = tt

abbrev contact : Fields
contact = field "name" (text "Ann") end

abbrev rename : List Method
rename =
    updates (object contact)
    ∷ filter_by (record { column = "id"; operator = eq; value = number 7 })
    ∷ selects
    ∷ []

renamed :
    tenant_from "acme" "contacts" rename
    ≡ some (
        update_rows contact
          (record { column = "id"; operator = eq; value = number 7 } ∷ tenant_filter "acme" ∷ []))
unfolding opened
renamed = refl

-- A deletion with no filter of its own still deletes the tenant's rows only.
purged :
    tenant_from "acme" "contacts" (deletes ∷ [])
    ≡ some (Statement.delete_rows (tenant_filter "acme" ∷ []))
unfolding opened
purged = refl

-- The proxy lets an update write another tenant's id into a row of the tenant.
moved :
    tenant_from "acme" "contacts" (updates (object (field "tenant_id" (text "evil") end)) ∷ [])
    ≡ some (update_rows (field "tenant_id" (text "evil") end) (tenant_filter "acme" ∷ []))
unfolding opened
moved = refl

tenant_from-IsConfined_example :
    IsConfined "acme"
      (insert_rows (field "name" (text "Ann") (field "tenant_id" (text "acme") end) ∷ []))
unfolding opened
tenant_from-IsConfined_example =
    tenant_from-IsConfined "acme" "contacts" (inserts (object contact) ∷ selects ∷ []) _ refl refl

abbrev mixed : Value
mixed = array (cons (object contact) (cons (object (field "tenant_id" (text "evil") end)) nil))

with_tenant-refuses_example : refused (with_tenant "acme" mixed) ≡ names_other "acme" mixed
with_tenant-refuses_example = with_tenant-refuses "acme" mixed

scoped_rpc-tenant_example :
    ((get "p_tenant_id" (put "p_tenant_id" (text "acme") contact) ≡ text "acme")
      ⊎ (truthy_value (get "p_tenant_id" (put "p_tenant_id" (text "acme") contact)) ≡ false))
    × ((k : String)
        → k ≢ "p_tenant_id"
        → get k (put "p_tenant_id" (text "acme") contact) ≡ get k contact)
unfolding opened
scoped_rpc-tenant_example = scoped_rpc-tenant "acme" "mutate_promise" contact _ refl refl

abbrev request : Request
request = record {
  header_tenant = text " acme ";
  body = object (field "correlation" (object (field "tenant_id" (text "acme") end)) end);
  query_tenant = undefined;
}

tenant_from_request-Agrees_example :
    Agrees "acme" (text " acme ")
    × Agrees "acme" undefined
    × Agrees "acme" (text "acme")
    × Agrees "acme" undefined
unfolding opened
tenant_from_request-Agrees_example = tenant_from_request-Agrees request "acme" refl
