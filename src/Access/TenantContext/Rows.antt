-- ===== src/Access/TenantContext/Rows.antt =====
-- Payloads that have been stamped with a tenant, and the rows that are made of them.
use communications_service.Prelude.{
  subst, String, some, List, ◌≡◌, ◌⊎◌, inl, inr, All, Option-cases, Bool-cases,
}
use communications_service.Storage.Json.{
  Value, Values, Fields, undefined, null, boolean, number, text, array, object, nil, cons, end, get,
  get-put, get-defined_text,
}
use communications_service.Storage.Query.{mutation_rows, entries}
use communications_service.Storage.Query.Laws.{entries_cases, EachValue, EachRow, mutation_rows-All}
use communications_service.Access.TenantContext.{with_tenant, with_tenants, stamp, foreign}

module _ (t : String) where
  abbrev pub IsOwnedRow : Fields → Type 0
  IsOwnedRow row = (get "tenant_id" row ≡ text t) ⊎ (row ≡ end)

  abbrev pub IsStampedRow : Value → Type 0
  IsStampedRow (object fs) = get "tenant_id" fs ≡ text t
  IsStampedRow undefined = Unit {0}
  IsStampedRow null = Unit {0}
  IsStampedRow (boolean b) = Unit {0}
  IsStampedRow (number n) = Unit {0}
  IsStampedRow (text s) = Unit {0}
  IsStampedRow (array vs) = Unit {0}

  abbrev pub IsStamped : Value → Type 0
  IsStamped = EachRow IsStampedRow

  stamp-get : (fs : Fields) → get "tenant_id" (stamp t fs) ≡ text t
  stamp-get fs = get-put "tenant_id" (text t) fs

  stamped_object :
      (P : Value → Type 0) (fs : Fields) (w : Value)
      → ((gs : Fields) → get "tenant_id" gs ≡ text t → P (object gs))
      → with_tenant t (object fs) ≡ some w
      → P w
  unfolding with_tenant
  stamped_object P fs w p h = elim (Bool-cases (foreign t (get "tenant_id" fs))) [
    | inl other ↦ absurd (cc (rw other at h))
    | inr own ↦
        let q : ◌≡◌ {A = Value} (object (stamp t fs)) w = cc (rw own at h) in
        subst P q (p (stamp t fs) (stamp-get fs))
  ]

  stamped_array :
      (P : Value → Type 0) (vs : Values) (w : Value)
      → ((ws : Values) → with_tenants t vs ≡ some ws → P (array ws))
      → with_tenant t (array vs) ≡ some w
      → P w
  unfolding with_tenant
  stamped_array P vs w p h = elim (Option-cases (with_tenants t vs)) [
    | inl e ↦ absurd (cc (rw e at h))
    | inr (ws, e) ↦ let q : ◌≡◌ {A = Value} (array ws) w = cc (rw e at h) in subst P q (p ws e)
  ]

  with_tenant-IsStampedRow : (v w : Value) → with_tenant t v ≡ some w → IsStampedRow w
  unfolding with_tenant
  with_tenant-IsStampedRow (object fs) w h = stamped_object IsStampedRow fs w (λ gs e. e) h
  with_tenant-IsStampedRow (array vs) w h = stamped_array IsStampedRow vs w (λ ws e. tt) h
  with_tenant-IsStampedRow v w h = let q : ◌≡◌ {A = Value} v w = cc in subst IsStampedRow q tt

  with_tenants-EachValue :
      (vs ws : Values) → with_tenants t vs ≡ some ws → EachValue IsStampedRow ws
  unfolding with_tenants
  with_tenants-EachValue nil ws h =
      let q : ◌≡◌ {A = Values} nil ws = cc in subst (EachValue IsStampedRow) q tt
  with_tenants-EachValue (cons v vs) ws h = elim (Option-cases (with_tenant t v)) [
    | inl e ↦ absurd (cc (rw e at h))
    | inr (w, e) ↦ elim (Option-cases (with_tenants t vs)) [
      | inl e' ↦ absurd (cc (rw (e, e') at h))
      | inr (us, e') ↦
          let q : ◌≡◌ {A = Values} (cons w us) ws = cc (rw (e, e') at h) in
          subst (EachValue IsStampedRow) q
            (with_tenant-IsStampedRow v w e, with_tenants-EachValue vs us e')
    ]
  ]

  pub with_tenant-IsStamped : (v w : Value) → with_tenant t v ≡ some w → IsStamped w
  unfolding with_tenant
  with_tenant-IsStamped (object fs) w h = stamped_object IsStamped fs w (λ gs e. e) h
  with_tenant-IsStamped (array vs) w h =
      stamped_array IsStamped vs w (λ ws e. with_tenants-EachValue vs ws e) h
  with_tenant-IsStamped v w h = let q : ◌≡◌ {A = Value} v w = cc in subst IsStamped q tt

  entries-IsOwnedRow :
      (v : Value) (row : Fields) → entries v ≡ some row → IsStampedRow v → IsOwnedRow row
  entries-IsOwnedRow v row h q = elim (entries_cases v row h) [
    | inl (fs, e, r) ↦ inl (rw r (get-defined_text "tenant_id" t fs (subst IsStampedRow e q)))
    | inr r ↦ inr r
  ]

  -- Every row made of a stamped payload belongs to the tenant, or has no column.
  pub mutation_rows-IsOwnedRow :
      (v : Value) (rows : List Fields)
      → mutation_rows v ≡ some rows
      → IsStamped v
      → All IsOwnedRow rows
  mutation_rows-IsOwnedRow = mutation_rows-All IsStampedRow IsOwnedRow entries-IsOwnedRow
