-- ===== src/Access/EmailPolicy/Laws.antt =====
-- emailPolicy.js, emailSendMode: when email may be sent.
use communications_service.Prelude.{
  >>-ensure, returned, >>=-returned, >>-ensure, String, true, false, ◌||◌, Option, none, some, ◌≡◌,
  ◌≢◌, sym, ◌∙◌, refl, ap, ◌⊎◌, inl, inr, arith, Bool-cases, eq_iff, subst,
}
use communications_service.Prelude.Text.{has_text, same}
use communications_service.Storage.Json.{
  Value, Fields, undefined, text, object, null, boolean, number, array, end, field, is_text,
  is_text-eq, get, has,
}
use communications_service.Access.EmailPolicy.{
  allow_send, is_mode, modes_only, policy_of, named_tenant, or_misconfigured, is_undefined,
  combined, email_send_mode,
}

-- Sending is allowed.
pub record Allows (env : Option Value) (tenant account : Value) : Type 0 where
  pub name : String
  pub policy : Fields
  pub tenant_named : (tenant ≡ text name) × (has_text name ≡ true)
  pub configured : env ≡ some (object policy)
  pub unrestricted : account ≢ text "draft_only"
  pub unrestricted_tenant : get name policy ≢ text "draft_only"
  pub granted :
      (account ≡ text "allow_send")
      ⊎ ((account ≡ undefined) × (get name policy ≡ text "allow_send"))

named_tenant-eq :
    (v : Value) (n : String) → named_tenant v ≡ returned n → (v ≡ text n) × (has_text n ≡ true)
unfolding named_tenant
named_tenant-eq (text s) n h = elim (Bool-cases (has_text s)) [
  | inl e ↦ let q : s ≡ n = cc (rw e at h) in (ap text q, subst (λ z. has_text z ≡ true) q e)
  | inr e ↦ absurd (cc (rw e at h))
]
named_tenant-eq v n h = cc

or_misconfigured-eq :
    (o : Option Fields) (fs : Fields) → or_misconfigured o ≡ returned fs → o ≡ some fs
or_misconfigured-eq none fs h = cc
or_misconfigured-eq (some gs) fs h = ground arith

policy_of-eq :
    (env : Option Value) (fs : Fields)
    → policy_of env ≡ some fs
    → (env ≡ some (object fs)) × (modes_only fs ≡ true)
unfolding policy_of
policy_of-eq (some (object gs)) fs h = elim (Bool-cases (modes_only gs)) [
  | inl e ↦ let q : gs ≡ fs = ground arith in (ap (λ x. some (object x)) q, rw (← q) e)
  | inr e ↦ absurd (ground arith)
]
policy_of-eq env fs h = cc

is_mode-cases : (v : Value) → is_mode v ≡ true → (v ≡ text "draft_only") ⊎ (v ≡ text "allow_send")
unfolding is_mode
is_mode-cases v h = elim (Bool-cases (is_text "draft_only" v)) [
  | inl e ↦ inl (is_text-eq "draft_only" v e)
  | inr e ↦ inr (is_text-eq "allow_send" v (ground arith))
]

modes_only-get :
    (k : String) (fs : Fields)
    → modes_only fs ≡ true
    → has k fs ≡ true
    → (get k fs ≡ text "draft_only") ⊎ (get k fs ≡ text "allow_send")
unfolding modes_only get has
modes_only-get k end m h = cc
modes_only-get k (field j v fs) m h = elim (Bool-cases (same j k)) [
  | inl e ↦ rw e (is_mode-cases v (ground arith))
  | inr e ↦ rw e (modes_only-get k fs (ground arith) (rw e at h))
]

has-get : (k : String) (fs : Fields) → has k fs ≡ false → get k fs ≡ undefined
unfolding get has
has-get k end h = refl
has-get k (field j v fs) h = elim (Bool-cases (same j k)) [
  | inl e ↦ absurd (cc (rw e at h))
  | inr e ↦ rw e (has-get k fs (rw e at h))
]

setting-cases :
    (v : Value)
    → (is_undefined v || is_mode v) ≡ true
    → (v ≡ undefined) ⊎ ((v ≡ text "draft_only") ⊎ (v ≡ text "allow_send"))
setting-cases undefined h = inl refl
setting-cases null h = inr (is_mode-cases null h)
setting-cases (boolean b) h = inr (is_mode-cases (boolean b) h)
setting-cases (number n) h = inr (is_mode-cases (number n) h)
setting-cases (text s) h = inr (is_mode-cases (text s) h)
setting-cases (array vs) h = inr (is_mode-cases (array vs) h)
setting-cases (object fs) h = inr (is_mode-cases (object fs) h)

allow-draft : ◌≢◌ {A = Value} (text "allow_send") (text "draft_only")
allow-draft = ground (arith, eq_iff "allow_send" "draft_only")

-- The tenant's own setting, or that of the environment, allows sending, and neither restricts it.
combined-IsGranted :
    (name : String) (policy : Fields) (account : Value)
    → modes_only policy ≡ true
    → (is_undefined account || is_mode account) ≡ true
    → combined policy name account ≡ allow_send
    → (account ≢ text "draft_only")
      × (get name policy ≢ text "draft_only")
      × ((account ≡ text "allow_send")
          ⊎ ((account ≡ undefined) × (get name policy ≡ text "allow_send")))
unfolding combined
combined-IsGranted name policy account m valid h = elim (setting-cases account valid) [
  | inl u ↦ elim (Bool-cases (has name policy)) [
    | inr n ↦ absurd (cc (rw (u, n) at h))
    | inl y ↦ elim (modes_only-get name policy m y) [
      | inl d ↦ absurd (cc (rw (u, y, d) at h))
      | inr a ↦ (λ e. cc (rw u at e), λ e. allow-draft (sym a ∙ e), inr (u, a))
    ]
  ]
  | inr (inl d) ↦ absurd (cc (rw d at h))
  | inr (inr a) ↦ elim (Bool-cases (has name policy)) [
    | inr n ↦ (λ e. allow-draft (sym a ∙ e), λ e. cc (rw (has-get name policy n) at e), inl a)
    | inl y ↦ elim (modes_only-get name policy m y) [
      | inl d ↦ absurd (cc (rw (a, y, d) at h))
      | inr b ↦ (λ e. allow-draft (sym a ∙ e), λ e. allow-draft (sym b ∙ e), inl a)
    ]
  ]
]

-- Email may be sent only for a named tenant under a well-formed configuration, where neither the
-- tenant's stored setting nor the environment restricts it to drafts, and the tenant's setting is `allow_send`,
-- or it has none and the environment's setting for the tenant is `allow_send`.
pub email_send_mode-Allows :
    (env : Option Value) (tenant account : Value)
    → email_send_mode env tenant account ≡ returned allow_send
    → Allows env tenant account
unfolding email_send_mode
email_send_mode-Allows env tenant account h =
    let (name, named, h₁) = >>=-returned (named_tenant tenant) _ h in
    let (policy, known, h₂) = >>=-returned (or_misconfigured (policy_of env)) _ h₁ in
    let (valid, granted) = >>-ensure (is_undefined account || is_mode account) _ _ h₂ in
    let (configured, modes) =
      policy_of-eq env policy (or_misconfigured-eq (policy_of env) policy known) in
    let g = combined-IsGranted name policy account modes valid (ground arith) in
    record {
      name = name;
      policy = policy;
      tenant_named = named_tenant-eq tenant name named;
      configured = configured;
      unrestricted = g.0;
      unrestricted_tenant = g.1;
      granted = g.2;
    }
