-- ===== src/Access/TenantContext/Calls.antt =====
-- Refused writes, tenant-scoped procedures, and the tenant that a request names.
use communications_service.Prelude.{
  All-split, String, Bool, true, false, Option, none, some, List, [], ◌∷◌, ◌≡◌, ◌≢◌, refl, ◌⊎◌, inl,
  inr, arith, All, Bool-cases, subst, all, ◌||◌, eq_iff, sym, not, leb, ◌&&◌,
}
use communications_service.Prelude.Text.{includes, same, has_text, trim}
use communications_service.Storage.Json.{
  Value, Values, Fields, undefined, null, boolean, number, text, array, object, nil, cons, get, put,
  has, get-put, truthy_value, get-put_ne, is_text-eq,
}
use communications_service.Access.TenantContext.Tables.{tenant_rpcs}
use communications_service.Access.TenantContext.{
  with_tenant, with_tenants, foreign, scoped_rpc, Request, candidates, names, agreed,
  tenant_from_request, candidate, member,
}

-- A tenant id that is neither missing, null, false, zero or empty, nor the tenant's own.
abbrev pub is_other : String → Value → Bool
is_other t undefined = false
is_other t null = false
is_other t (boolean b) = b
is_other t (number n) = leb 1 n
is_other t (text s) = not (same s "") && not (same s t)
is_other t (array vs) = true
is_other t (object fs) = true

foreign-is_other : (t : String) (v : Value) → foreign t v ≡ is_other t v
foreign-is_other t undefined = refl
foreign-is_other t null = refl
foreign-is_other t (boolean true) = refl
foreign-is_other t (boolean false) = refl
foreign-is_other t (number n) = ground arith
foreign-is_other t (text s) = refl
foreign-is_other t (array vs) = refl
foreign-is_other t (object fs) = refl

-- An object in the payload, at any depth of arrays, names another tenant.
mutual
  pub names_other : String → Value → Bool
  names_other t undefined = false
  names_other t null = false
  names_other t (boolean b) = false
  names_other t (number n) = false
  names_other t (text s) = false
  names_other t (array vs) = any_names_other t vs
  names_other t (object fs) = is_other t (get "tenant_id" fs)

  pub any_names_other : String → Values → Bool
  any_names_other t nil = false
  any_names_other t (cons v vs) = names_other t v || any_names_other t vs

abbrev pub refused {ℓ} : {A : Type ℓ} → Option A → Bool
refused none = true
refused (some a) = false

mutual
  unfolding with_tenant with_tenants names_other any_names_other

  refuses : (t : String) (v : Value) → refused (with_tenant t v) ≡ names_other t v
  refuses t undefined = refl
  refuses t null = refl
  refuses t (boolean b) = refl
  refuses t (number n) = refl
  refuses t (text s) = refl
  refuses t (array vs) = ground (arith, refuses_any t vs)
  refuses t (object fs) = ground (arith, foreign-is_other t (get "tenant_id" fs))

  refuses_any : (t : String) (vs : Values) → refused (with_tenants t vs) ≡ any_names_other t vs
  refuses_any t nil = refl
  refuses_any t (cons v vs) = ground (arith, refuses t v, refuses_any t vs)

-- A write is refused exactly when an object in its payload, at any depth of arrays, has a tenant id
-- that is neither missing, null, false, zero nor the empty text and is not the tenant's own.
pub with_tenant-refuses : (t : String) (v : Value) → refused (with_tenant t v) ≡ names_other t v
with_tenant-refuses t v = refuses t v

-- A procedure that is scoped to tenants is called for this tenant, or with the falsy tenant
-- argument that the caller wrote out; all its other arguments are the caller's.
pub scoped_rpc-tenant :
    (t name : String) (args out : Fields)
    → includes tenant_rpcs name ≡ true
    → scoped_rpc t name args ≡ some out
    → ((get "p_tenant_id" out ≡ text t) ⊎ (truthy_value (get "p_tenant_id" out) ≡ false))
      × ((k : String) → k ≢ "p_tenant_id" → get k out ≡ get k args)
unfolding scoped_rpc
scoped_rpc-tenant t name args out i h = elim (Bool-cases (foreign t (get "p_tenant_id" args))) [
  | inl f ↦ absurd (cc (rw (i, f) at h))
  | inr f ↦ elim (Bool-cases (has "p_tenant_id" args)) [
    | inl given ↦
        let q : ◌≡◌ {A = Fields} args out = cc (rw (i, f, given) at h) in
        (rw (← q) (own (get "p_tenant_id" args) f), λ k ne. rw (← q))
    | inr new ↦
        let q : ◌≡◌ {A = Fields} (put "p_tenant_id" (text t) args) out = cc (rw (i, f, new) at h) in
        (
          inl (rw (← q) (get-put "p_tenant_id" (text t) args)),
          λ k ne. rw (← q) (get-put_ne k "p_tenant_id" (text t) args ne),
        )
  ]
]
  where
    own : (v : Value) → foreign t v ≡ false → (v ≡ text t) ⊎ (truthy_value v ≡ false)
    own v g = elim (Bool-cases (truthy_value v)) [
      | inl y ↦ inl (is_text-eq t v (ground arith))
      | inr n ↦ inr n
    ]

-- A place of the request agrees with a tenant: it is blank or no text, or names that tenant.
abbrev pub Agrees : String → Value → Type 0
Agrees t v = (s : String) → v ≡ text s → has_text s ≡ true → trim s ≡ t

all-same : (x : String) (xs : List String) → all (same x) xs ≡ true → All (λ y. y ≡ x) xs
unfolding all
all-same x [] h = tt
all-same x (y ∷ ys) h = (sym ((eq_iff x y).0 (ground arith)), all-same x ys (ground arith))

agreed-All : (t : String) (xs : List String) → agreed xs ≡ names t → All (λ y. y ≡ t) xs
unfolding agreed
agreed-All t [] h = tt
agreed-All t (x ∷ xs) h = elim (Bool-cases (all (same x) xs)) [
  | inl e ↦
      let q : x ≡ t = cc (rw e at h) in (q, subst (λ z. All (λ y. y ≡ z) xs) q (all-same x xs e))
  | inr e ↦ absurd (cc (rw e at h))
]

candidate-Agrees : (t : String) (v : Value) → All (λ y. y ≡ t) (candidate v) → Agrees t v
unfolding candidate
candidate-Agrees t v h s e b = (rw (e, candidate, b) at h).0

-- When the request is taken to name a tenant, its header, its body (also under `correlation`) and
-- its query string all agree on it: no other tenant named in one of them is overlooked.
pub tenant_from_request-Agrees :
    (r : Request) (t : String)
    → tenant_from_request r ≡ names t
    → Agrees t r.header_tenant
      × Agrees t (member "tenant_id" r.body)
      × Agrees t (member "tenant_id" (member "correlation" r.body))
      × Agrees t r.query_tenant
unfolding tenant_from_request candidates
tenant_from_request-Agrees r t h =
    let P : String → Type 0 = λ y. y ≡ t in
    let a = All-split P (candidate r.header_tenant) _ (agreed-All t (candidates r) h) in
    let b = All-split P (candidate (member "tenant_id" r.body)) _ a.1 in
    let c = All-split P (candidate (member "tenant_id" (member "correlation" r.body))) _ b.1 in
    (
      candidate-Agrees t _ a.0,
      candidate-Agrees t _ b.0,
      candidate-Agrees t _ c.0,
      candidate-Agrees t _ c.1,
    )
