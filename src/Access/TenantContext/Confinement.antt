-- ===== src/Access/TenantContext/Confinement.antt =====
-- tenantContext.js: chains of builder calls on a tenant's table.
use communications_service.Prelude.{
  String, Bool, true, false, Option, none, some, List, [], ◌∷◌, ◌++◌, ◌≡◌, refl, ◌⊎◌, inl, inr,
  arith, All, Option-cases, subst,
}
use communications_service.Storage.Json.{Value}
use communications_service.Storage.Query.{
  Query, Filter, Action, select, insert, upsert, update, delete, Method, selects, inserts, upserts,
  updates, deletes, filter_by, orders_by, limits, ranges, singles, apply, Statement, select_rows,
  insert_rows, upsert_rows, update_rows, delete_rows, nothing, execute, from,
}
use communications_service.Storage.Query.Laws.{ComesFrom, execute-ComesFrom}
use communications_service.Prelude.Text.{includes}
use communications_service.Access.TenantContext.Tables.{tenant_tables}
use communications_service.Access.TenantContext.{
  tenant_from, Mutation, inserting, upserting, updating, deleting, Scoped, tenant_filter,
  with_tenant, call, apply_scope, calls, open_query, run_query, stamped,
}
use communications_service.Access.TenantContext.Rows.{
  IsOwnedRow, IsStamped, with_tenant-IsStamped, mutation_rows-IsOwnedRow,
}

-- The builder's action is the mutation that the proxy has noted.
abbrev agrees : Action → Option Mutation → Bool
agrees select none = true
agrees insert (some inserting) = true
agrees upsert (some upserting) = true
agrees update (some updating) = true
agrees delete (some deleting) = true
agrees _ _ = false

abbrev writes : Action → Bool
writes insert = true
writes upsert = true
writes select = false
writes update = false
writes delete = false

abbrev IsPrepared : String → Action → Value → Type 0
IsPrepared t insert v = IsStamped t v
IsPrepared t upsert v = IsStamped t v
IsPrepared t select v = Unit {0}
IsPrepared t update v = Unit {0}
IsPrepared t delete v = Unit {0}

record IsTracked (t : String) (s : Scoped) : Type 0 where
  agreed : agrees s.query.action s.mutation ≡ true
  unscoped : s.scope_applied ≡ false
  prepared : IsPrepared t s.query.action s.query.payload

abbrev pub Contains : Filter → List Filter → Type 0
Contains f [] = ⊥
Contains f (g ∷ fs) = (g ≡ f) ⊎ Contains f fs

Contains-last : (f : Filter) (fs : List Filter) → Contains f (fs ++ f ∷ [])
Contains-last f [] = inl refl
Contains-last f (g ∷ fs) = inr (Contains-last f fs)

-- The statement touches the tenant's rows only: it filters by the tenant, or every row that it
-- writes carries the tenant (or has no column at all).
abbrev pub IsConfined : String → Statement → Type 0
IsConfined t (select_rows fs) = Contains (tenant_filter t) fs
IsConfined t (update_rows row fs) = Contains (tenant_filter t) fs
IsConfined t (delete_rows fs) = Contains (tenant_filter t) fs
IsConfined t (insert_rows rows) = All (IsOwnedRow t) rows
IsConfined t (upsert_rows rows c i) = All (IsOwnedRow t) rows
IsConfined t nothing = Unit {0}

module _ (t : String) where
  stamped-IsTracked :
      (s u : Scoped) (m : Mutation) (make : Value → Method) (v : Value) (a : Action)
      → ((w : Value)
          → ((apply s.query (make w)).action ≡ a) × ((apply s.query (make w)).payload ≡ w))
      → agrees a (some m) ≡ true
      → ((w : Value) → IsStamped t w → IsPrepared t a w)
      → s.scope_applied ≡ false
      → stamped t true s m make (with_tenant t v) ≡ some u
      → IsTracked t u
  stamped-IsTracked s u m make v a shape g p f h = elim (Option-cases (with_tenant t v)) [
    | inl e ↦ absurd (cc (rw e at h))
    | inr (w, e) ↦
        let q : ◌≡◌ {A = Scoped} (record s { query = apply s.query (make w); mutation = some m })
            u =
          cc (rw e at h) in
        subst (IsTracked t) q (record {
          agreed = rw (shape w).0 g;
          unscoped = f;
          prepared = rw ((shape w).0, (shape w).1) (p w (with_tenant-IsStamped t v w e));
        })
  ]

  kept :
      (s u : Scoped) (q : Query)
      → q.action ≡ s.query.action
      → q.payload ≡ s.query.payload
      → IsTracked t s
      → ◌≡◌ {A = Option Scoped} (some (record s { query = q })) (some u)
      → IsTracked t u
  kept s u q a p h e =
      let r : ◌≡◌ {A = Scoped} (record s { query = q }) u = cc in
      subst (IsTracked t) r
        (record { agreed = rw a h.agreed; unscoped = h.unscoped; prepared = rw (a, p) h.prepared })

  call-IsTracked :
      (s u : Scoped) (m : Method) → IsTracked t s → call t true s m ≡ some u → IsTracked t u
  unfolding call apply
  call-IsTracked s u (inserts v) h e =
      stamped-IsTracked s u inserting inserts v insert (λ w. (refl, refl)) refl (λ w k. k)
        h.unscoped e
  call-IsTracked s u (upserts v c i) h e =
      stamped-IsTracked s u upserting (λ w. upserts w c i) v upsert (λ w. (refl, refl)) refl
        (λ w k. k) h.unscoped e
  call-IsTracked s u (updates v) h e =
      let r : ◌≡◌ {A = Scoped}
          (record s { query = apply s.query (updates v); mutation = some updating }) u =
        cc in
      subst (IsTracked t) r (record { agreed = refl; unscoped = h.unscoped; prepared = tt })
  call-IsTracked s u deletes h e =
      let r : ◌≡◌ {A = Scoped}
          (record s { query = apply s.query deletes; mutation = some deleting }) u =
        cc in
      subst (IsTracked t) r (record { agreed = refl; unscoped = h.unscoped; prepared = tt })
  call-IsTracked s u selects h e =
      kept s u (apply s.query selects) (ground arith) (ground arith) h e
  call-IsTracked s u (filter_by f) h e = kept s u _ refl refl h e
  call-IsTracked s u (orders_by c a) h e = kept s u _ refl refl h e
  call-IsTracked s u (limits n) h e = kept s u _ refl refl h e
  call-IsTracked s u (ranges a b) h e = kept s u _ refl refl h e
  call-IsTracked s u (singles c) h e = kept s u _ refl refl h e

  calls-IsTracked :
      (s u : Scoped) (ms : List Method) → IsTracked t s → calls t true s ms ≡ some u → IsTracked t u
  unfolding calls
  calls-IsTracked s u [] h e = let r : ◌≡◌ {A = Scoped} s u = cc in subst (IsTracked t) r h
  calls-IsTracked s u (m ∷ ms) h e = elim (Option-cases (call t true s m)) [
    | inl e' ↦ absurd (cc (rw (e', calls) at e))
    | inr (v, e') ↦ calls-IsTracked v u ms (call-IsTracked s v m h e') (rw (e', calls) at e)
  ]

  reads-IsConfined :
      (q : Query) (st : Statement)
      → Contains (tenant_filter t) q.filters
      → writes q.action ≡ false
      → ComesFrom q st
      → IsConfined t st
  reads-IsConfined q (select_rows fs) k w c = rw c.1 k
  reads-IsConfined q (update_rows row fs) k w c = rw c.1 k
  reads-IsConfined q (delete_rows fs) k w c = rw c.1 k
  reads-IsConfined q (insert_rows rows) k w c = absurd (cc (rw c.0 at w))
  reads-IsConfined q (upsert_rows rows o i) k w c = absurd (cc (rw c.0 at w))
  reads-IsConfined q nothing k w c = tt

  writes-IsConfined :
      (q : Query) (st : Statement)
      → IsPrepared t q.action q.payload
      → writes q.action ≡ true
      → ComesFrom q st
      → IsConfined t st
  writes-IsConfined q (select_rows fs) k w c = absurd (cc (rw c.0 at w))
  writes-IsConfined q (update_rows row fs) k w c = absurd (cc (rw c.0 at w))
  writes-IsConfined q (delete_rows fs) k w c = absurd (cc (rw c.0 at w))
  writes-IsConfined q (insert_rows rows) k w c =
      mutation_rows-IsOwnedRow t q.payload rows c.1 (rw c.0 at k)
  writes-IsConfined q (upsert_rows rows o i) k w c =
      mutation_rows-IsOwnedRow t q.payload rows c.1 (rw c.0 at k)
  writes-IsConfined q nothing k w c = tt

  -- What `applyScope` adds suffices, whatever the mutation.
  confine :
      (s : Scoped) (st : Statement)
      → IsTracked t s
      → execute (apply_scope t true s).query ≡ some st
      → IsConfined t st
  unfolding apply_scope apply
  confine s st h e = go s.mutation refl
    where
      from_query : (q : Query) → (apply_scope t true s).query ≡ q → ComesFrom q st
      from_query q p = execute-ComesFrom q st (rw p at e)

      narrowed_query : Query
      narrowed_query = apply s.query (filter_by (tenant_filter t))

      reads :
          writes s.query.action ≡ false
          → (apply_scope t true s).query ≡ narrowed_query
          → IsConfined t st
      reads w p =
          reads-IsConfined narrowed_query st (Contains-last (tenant_filter t) s.query.filters) w
            (from_query narrowed_query p)

      wrote :
          writes s.query.action ≡ true → (apply_scope t true s).query ≡ s.query → IsConfined t st
      wrote w p = writes-IsConfined s.query st h.prepared w (from_query s.query p)

      go : (m : Option Mutation) → s.mutation ≡ m → IsConfined t st
      go none p = reads (ground (arith, h.agreed)) (ground (arith, h.unscoped))
      go (some updating) p = reads (ground (arith, h.agreed)) (ground (arith, h.unscoped))
      go (some deleting) p = reads (ground (arith, h.agreed)) (ground (arith, h.unscoped))
      go (some inserting) p = wrote (ground (arith, h.agreed)) (ground (arith, h.unscoped))
      go (some upserting) p = wrote (ground (arith, h.agreed)) (ground (arith, h.unscoped))

  run_query-IsConfined :
      (table : String) (ms : List Method) (st : Statement)
      → run_query t true table ms ≡ some st
      → IsConfined t st
  unfolding run_query
  run_query-IsConfined table ms st h =
      elim (Option-cases (calls t true (open_query t true (from table)) ms)) [
        | inl e ↦ absurd (cc (rw e at h))
        | inr (s, e) ↦
            confine s st
              (calls-IsTracked (open_query t true (from table)) s ms
                (record { agreed = refl; unscoped = refl; prepared = tt }) e)
              (rw e at h)
      ]

-- Whatever chain of builder calls is made on a table that belongs to tenants, the statement that is
-- sent, if any, is confined to the tenant: a select, update or delete filters by the tenant, and
-- each row of an insert or upsert carries the tenant's id or has no column.
pub tenant_from-IsConfined :
    (t table : String) (ms : List Method) (st : Statement)
    → includes tenant_tables table ≡ true
    → tenant_from t table ms ≡ some st
    → IsConfined t st
unfolding tenant_from
tenant_from-IsConfined t table ms st owned h = run_query-IsConfined t table ms st (rw owned at h)
