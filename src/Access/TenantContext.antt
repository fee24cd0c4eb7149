-- ===== src/Access/TenantContext.antt =====
-- tenantContext.js: the wrapper that confines a privileged database connection to one tenant. A
-- proxied query is the builder of Storage/Query with the variables of the closure; a chain of calls
-- is a list of methods, and awaiting it adds the tenant's filter and executes.
pub mod Tables
pub mod Rows
pub mod Confinement
pub mod Calls
pub mod Tests
use Tables.{tenant_tables, tenant_rpcs}
use communications_service.Prelude.{
  String, Bool, true, false, not, ◌&&◌, ◌||◌, Option, none, some, List, [], ◌∷◌, ◌++◌,
  if◌then◌else◌, map, keep, all,
}
use communications_service.Prelude.Text.{same, same?, includes, has_text, trim}
use communications_service.Storage.Json.{
  Value, Values, Fields, undefined, null, boolean, number, text, array, object, nil, cons,
  truthy_value, is_text, get, put, has,
}
use communications_service.Storage.Query.{
  Query, Filter, eq, Method, selects, inserts, upserts, updates, deletes, filter_by, orders_by,
  limits, ranges, singles, apply, Statement, execute, from,
}

-- A payload is stamped with the tenant, or refused (none) if an object in it names another one.
abbrev foreign : String → Value → Bool
foreign tenant v = truthy_value v && not (is_text tenant v)

abbrev stamp : String → Fields → Fields
stamp tenant fs = put "tenant_id" (text tenant) fs

abbrev in_array : Option Values → Option Value
in_array none = none
in_array (some vs) = some (array vs)

abbrev in_front : Option Value → Option Values → Option Values
in_front none vs = none
in_front (some v) none = none
in_front (some v) (some vs) = some (cons v vs)

mutual
  pub with_tenant : String → Value → Option Value
  with_tenant tenant undefined = some undefined
  with_tenant tenant null = some null
  with_tenant tenant (boolean b) = some (boolean b)
  with_tenant tenant (number n) = some (number n)
  with_tenant tenant (text s) = some (text s)
  with_tenant tenant (array vs) = in_array (with_tenants tenant vs)
  with_tenant tenant (object fs) =
      if foreign tenant (get "tenant_id" fs) then none else some (object (stamp tenant fs))

  pub with_tenants : String → Values → Option Values
  with_tenants tenant nil = some nil
  with_tenants tenant (cons v vs) = in_front (with_tenant tenant v) (with_tenants tenant vs)

pub data Mutation : Type 0 where
  inserting upserting updating deleting : Mutation

-- The variables of `scopedQuery`.
pub record Scoped : Type 0 where
  pub query : Query
  pub scope_applied : Bool
  pub mutation : Option Mutation

pub tenant_filter : String → Filter
tenant_filter tenant = record { column = "tenant_id"; operator = eq; value = text tenant }

module _ (tenant : String) (owned : Bool) where
  abbrev stamped : Scoped → Mutation → (Value → Method) → Option Value → Option Scoped
  stamped s m method none = none
  stamped s m method (some v) =
      some (record s { query = apply s.query (method v); mutation = some m })

  -- A method called through the proxy; none is the error of a cross-tenant write.
  pub call : Scoped → Method → Option Scoped
  unfolding with_tenant
  call s (inserts v) =
      if owned
      then stamped s inserting inserts (with_tenant tenant v)
      else some (record s { query = apply s.query (inserts v) })
  call s (upserts v c i) =
      if owned
      then stamped s upserting (λ w. upserts w c i) (with_tenant tenant v)
      else some (record s { query = apply s.query (upserts v c i) })
  call s (updates v) =
      some (record s { query = apply s.query (updates v); mutation = some updating })
  call s deletes = some (record s { query = apply s.query deletes; mutation = some deleting })
  call s selects = some (record s { query = apply s.query selects })
  call s (filter_by f) = some (record s { query = apply s.query (filter_by f) })
  call s (orders_by c a) = some (record s { query = apply s.query (orders_by c a) })
  call s (limits n) = some (record s { query = apply s.query (limits n) })
  call s (ranges a b) = some (record s { query = apply s.query (ranges a b) })
  call s (singles c) = some (record s { query = apply s.query (singles c) })

  abbrev narrowed : Scoped → Scoped
  narrowed s = record s {
    query = apply s.query (filter_by (tenant_filter tenant));
    scope_applied = true;
  }

  -- `applyScope`
  pub apply_scope : Scoped → Scoped
  unfolding tenant_filter
  apply_scope s = if not owned || s.scope_applied then s else elim s.mutation [
    | none ↦ narrowed s
    | some updating ↦ narrowed s
    | some deleting ↦ narrowed s
    | some inserting ↦ record s { scope_applied = true }
    | some upserting ↦ record s { scope_applied = true }
  ]

  pub calls : Scoped → List Method → Option Scoped
  calls s [] = some s
  calls s (m ∷ ms) = elim (call s m) [ none ↦ none | some t ↦ calls t ms ]

  abbrev pub open_query : Query → Scoped
  open_query q = record { query = q; scope_applied = false; mutation = none }

  abbrev awaited : Option Scoped → Option Statement
  awaited none = none
  awaited (some s) = execute (apply_scope s).query

  -- `await db.from(table).…`: the statement that reaches the server, if any.
  pub run_query : String → List Method → Option Statement
  unfolding calls apply_scope
  run_query table ms = awaited (calls (open_query (from table)) ms)

-- `tenantDatabase(database, tenant).from(table)`, with the calls made on it up to the await.
pub tenant_from : String → String → List Method → Option Statement
unfolding run_query
tenant_from tenant table ms = run_query tenant (includes tenant_tables table) table ms

-- `rpc` of the wrapped database: the arguments that are passed on; none is the error of a
-- cross-tenant call.
pub scoped_rpc : String → String → Fields → Option Fields
scoped_rpc tenant name args =
    if not (includes tenant_rpcs name)
    then some args
    else if foreign tenant (get "p_tenant_id" args)
    then none
    else some (if has "p_tenant_id" args then args else put "p_tenant_id" (text tenant) args)

-- `tenantDatabase`: the tenant that it confines to; none where it throws.
pub canonical_tenant : Value → Option String
canonical_tenant (text s) = if has_text s then some (trim s) else none
canonical_tenant undefined = none
canonical_tenant null = none
canonical_tenant (boolean b) = none
canonical_tenant (number n) = none
canonical_tenant (array vs) = none
canonical_tenant (object fs) = none

-- `tenantFromRequest`
pub record Request : Type 0 where
  pub header_tenant : Value
  pub body : Value
  pub query_tenant : Value

abbrev pub member : String → Value → Value
member k (object fs) = get k fs
member k v = undefined

unfoldable pub candidate : Value → List String
candidate (text s) = if has_text s then trim s ∷ [] else []
candidate undefined = []
candidate null = []
candidate (boolean b) = []
candidate (number n) = []
candidate (array vs) = []
candidate (object fs) = []

unfoldable pub candidates : Request → List String
unfolding candidate
candidates r =
    candidate r.header_tenant
    ++ (candidate (member "tenant_id" r.body)
        ++ (candidate (member "tenant_id" (member "correlation" r.body))
            ++ candidate r.query_tenant))

pub data Requested : Type 0 where
  conflicting : Requested
  unnamed : Requested
  names : String → Requested

unfoldable pub agreed : List String → Requested
agreed [] = unnamed
agreed (x ∷ xs) = if all (same x) xs then names x else conflicting

unfoldable pub tenant_from_request : Request → Requested
unfolding candidates agreed
tenant_from_request r = agreed (candidates r)
