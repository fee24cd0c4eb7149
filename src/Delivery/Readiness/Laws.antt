-- ===== src/Delivery/Readiness/Laws.antt =====
-- outboundReadiness.js: what assertOutboundReady makes sure of.
use communications_service.Prelude.{
  ◌≤◌, String, true, false, not, Option, none, some, List, [], ◌∷◌, ◌≡◌, refl, ap, ◌⊎◌, inl, inr,
  arith, Bool-cases, length, any, keep, returned, >>-ensure, All, eq_iff,
}
use communications_service.Prelude.Text.{truthy, same, includes}
use communications_service.Delivery.Readiness.{
  Twilio, Snapshot, Check, Health, assert_outbound_ready, account_ready, read_models, models_ready,
  is_required, selected_ready, default_model,
}

pub record IsReady (h : Health) (model : Option String) : Type 0 where
  pub active : h.twilio.account_status ≡ "active"
  pub funded : (h.twilio.balance_state ≡ "ok") ⊎ (h.twilio.balance_state ≡ "low")
  pub current : (read_models h).stale ≡ false
  pub enough : 2 ≤ length (keep is_required (read_models h).models)
  pub usable : All (λ c. (is_required c ≡ false) ⊎ (c.usable ≡ true)) (read_models h).models
  pub selected :
      (truthy model ≡ false)
      ⊎ (model ≡ some default_model)
      ⊎ ((m : String) × (model ≡ some m) × (h.probe m ≡ true))

required_usable :
    (checks : List Check)
    → any (λ c. not c.usable) (keep is_required checks) ≡ false
    → All (λ c. (is_required c ≡ false) ⊎ (c.usable ≡ true)) checks
unfolding any keep
required_usable [] h = tt
required_usable (c ∷ checks) h = elim (Bool-cases (is_required c)) [
  | inr e ↦ (inl e, required_usable checks (rw e at h))
  | inl e ↦ let h' = rw (e, any) at h in (inr (ground arith), required_usable checks (ground arith))
]

selected_cases :
    (h : Health) (model : Option String)
    → selected_ready h model ≡ true
    → (truthy model ≡ false)
      ⊎ (model ≡ some default_model)
      ⊎ ((m : String) × (model ≡ some m) × (h.probe m ≡ true))
unfolding selected_ready
selected_cases h none e = inl refl
selected_cases h (some m) e = elim (Bool-cases (truthy (some m))) [
  | inr t ↦ inl t
  | inl t ↦ elim (Bool-cases (same m default_model)) [
    | inl d ↦ inr (inl (ap some ((eq_iff m default_model).0 d)))
    | inr d ↦ inr (inr (m, refl, ground arith))
  ]
]

account_ready_lem :
    (t : Twilio)
    → account_ready t ≡ true
    → (t.account_status ≡ "active") × ((t.balance_state ≡ "ok") ⊎ (t.balance_state ≡ "low"))
unfolding account_ready includes
account_ready_lem t h = (
  (eq_iff t.account_status "active").0 (ground arith),
  ground (arith, eq_iff "ok" t.balance_state, eq_iff "low" t.balance_state),
)

models_ready_lem :
    (s : Snapshot)
    → models_ready s ≡ true
    → (s.stale ≡ false)
      × (2 ≤ length (keep is_required s.models))
      × (any (λ c. not c.usable) (keep is_required s.models) ≡ false)
unfolding models_ready
models_ready_lem s h = (ground arith, ground arith, ground arith)

-- A call is let through only if the account is active with a balance that is not used up or unknown,
-- the models' state is not stale, at least two checks are for the roles of a call and all of these
-- are usable, and a model of the caller's choice is the default one or has answered its probe.
pub assert_outbound_ready-IsReady :
    (h : Health) (model : Option String)
    → assert_outbound_ready true model h ≡ returned tt
    → IsReady h model
unfolding assert_outbound_ready
assert_outbound_ready-IsReady h model e =
    let (account, e₁) = >>-ensure (account_ready h.twilio) _ _ e in
    let (models, e₂) = >>-ensure (models_ready (read_models h)) _ _ e₁ in
    let selected : selected_ready h model ≡ true = ground arith in
    let (active, funded) = account_ready_lem h.twilio account in
    let (current, enough, unusable) = models_ready_lem (read_models h) models in
    record {
      active = active;
      funded = funded;
      current = current;
      enough = enough;
      usable = required_usable (read_models h).models unusable;
      selected = selected_cases h model selected;
    }
