-- ===== src/Access/Authentication/Laws.antt =====
-- auth.js, authenticateTenantRequest: the legacy key and the keys of clients.
use communications_service.Prelude.{
  ℕ, String, Bool, true, false, not, ◌&&◌, ◌||◌, Option, none, some, List, ◌∷◌, ◌<◌, Option-cases,
  eq_iff, ◌≡◌, refl, ap, ◌∙◌, ◌≢◌, ◌⊎◌, inl, inr, arith, Bool-cases, returned, >>-ensure,
  >>=-returned,
}
use communications_service.Prelude.Text.{filled, includes, truthy, same?, same?_iff, trim}
use communications_service.Access.TenantContext.{
  Request, Requested, unnamed, names, conflicting, tenant_from_request,
}
use communications_service.Access.Authentication.{
  Client, Lookup, found, missing, broken, Refusal, Auth, key_parts, or_refused, requested_of,
  allows, legacy, split_dollar, derives, verify_api_secret, expired, usable, client_of, registered,
  by_client, by_key, authenticate,
}

or_refused-eq {ℓ} :
    {A : Type ℓ} (o : Option A) (e : Refusal) (a : A) → or_refused o e ≡ returned a → o ≡ some a
unfolding or_refused
or_refused-eq none e a h = cc
or_refused-eq (some b) e a h = ground arith

requested_of-cases :
    (q : Requested) (o : Option String)
    → requested_of q ≡ returned o
    → ((q ≡ unnamed) × (o ≡ none)) ⊎ ((t : String) × (q ≡ names t) × (o ≡ some t))
unfolding requested_of
requested_of-cases unnamed o h = inl (refl, ground arith)
requested_of-cases (names t) o h = inr (t, refl, ground arith)
requested_of-cases conflicting o h = cc

requested_of-names :
    (q : Requested) (o : Option String) (t : String)
    → requested_of q ≡ returned o
    → q ≡ names t
    → o ≡ some t
unfolding requested_of
requested_of-names unnamed o t h e = cc
requested_of-names (names s) o t h e = ground arith
requested_of-names conflicting o t h e = cc

-- The key is the legacy key, which stands for the configured tenant alone.
pub record IsLegacy (api_key : Option String) (legacy_tenant provided : String) (request : Request)
    (auth : Auth) : Type 0 where
  pub key : api_key ≡ some provided
  pub tenant : auth.tenant_id ≡ trim legacy_tenant
  pub set : filled auth.tenant_id ≡ true
  pub requested :
      (t : String) → tenant_from_request request ≡ names t → filled t ≡ true → t ≡ auth.tenant_id

module _ (scrypt : (secret salt n r p : String) → Option String)
    (parse_date : String → Option ℕ) where
  -- The secret derives to what the client's stored hash, `scrypt$n$r$p$salt$expected`, ends in.
  pub record IsSecret (secret hash : String) : Type 0 where
    pub n : String
    pub r : String
    pub p : String
    pub salt : String
    pub expected : String
    pub rest : List String
    pub parts : split_dollar hash ≡ "scrypt" ∷ n ∷ r ∷ p ∷ salt ∷ expected ∷ rest
    pub salted : filled salt ≡ true
    pub set : filled expected ≡ true
    pub derived : scrypt secret salt n r p ≡ some expected

  -- The key is that of a client that is not revoked, has not expired and has this secret, and whose
  -- list has the tenant that the request names.
  pub record IsClient (provided : String) (request : Request) (clients : String → Lookup Client)
      (now : ℕ) (auth : Auth) : Type 0 where
    pub secret : String
    pub client : Client
    pub key : key_parts provided ≡ some (auth.key_id, secret)
    pub registered : clients auth.key_id ≡ found client
    pub not_revoked : (client.revoked_at ≡ none) ⊎ (client.revoked_at ≡ some "")
    pub not_expired :
        (date : String)
        → client.expires_at ≡ some date
        → filled date ≡ true
        → (t : ℕ) × (parse_date date ≡ some t) × (now < t)
    pub verified : IsSecret secret client.secret_hash
    pub tenants : List String
    pub restricted : client.allowed_tenants ≡ some tenants
    pub allowed : includes tenants auth.tenant_id ≡ true
    pub requested : tenant_from_request request ≡ names auth.tenant_id
    pub managed : auth.managed_tenant ≡ client.managed_tenant_id

  usable-not_revoked :
      (client : Client) (secret : String) (now : ℕ)
      → usable scrypt parse_date client secret now ≡ true
      → (client.revoked_at ≡ none) ⊎ (client.revoked_at ≡ some "")
  unfolding usable
  usable-not_revoked client secret now h = elim (Option-cases client.revoked_at) [
    | inl e ↦ inl e
    | inr (s, e) ↦ inr (e ∙ ap some ((eq_iff s "").0 (ground (arith, rw e at h))))
  ]

  usable-not_expired :
      (client : Client) (secret : String) (now : ℕ) (date : String)
      → usable scrypt parse_date client secret now ≡ true
      → client.expires_at ≡ some date
      → filled date ≡ true
      → (t : ℕ) × (parse_date date ≡ some t) × (now < t)
  unfolding usable expired
  usable-not_expired client secret now date h e f = elim (Option-cases (parse_date date)) [
    | inl n ↦ absurd (ground (arith, rw (e, f, n) at h))
    | inr (t, r) ↦ (t, r, ground (arith, rw (e, f, r) at h))
  ]

  derives-eq :
      (secret salt n r p expected : String)
      → derives scrypt parse_date secret salt n r p expected ≡ true
      → scrypt secret salt n r p ≡ some expected
  unfolding derives
  derives-eq secret salt n r p expected h = elim (Option-cases (scrypt secret salt n r p)) [
    | inl e ↦ absurd (ground (arith, rw (e, derives) at h))
    | inr (d, e) ↦ e ∙ ap some ((eq_iff d expected).0 (ground (arith, rw (e, derives) at h)))
  ]

  parts-IsSecret :
      (secret hash : String) (parts : List String)
      → split_dollar hash ≡ parts
      → verify_api_secret scrypt parse_date secret hash ≡ true
      → IsSecret secret hash
  unfolding verify_api_secret
  parts-IsSecret secret hash (algorithm ∷ n ∷ r ∷ p ∷ salt ∷ expected ∷ rest) e h =
      let k = rw (e, verify_api_secret) at h in
      let scrypt_named : algorithm ≡ "scrypt" = (eq_iff algorithm "scrypt").0 (ground arith) in
      record {
        n = n;
        r = r;
        p = p;
        salt = salt;
        expected = expected;
        rest = rest;
        parts = e ∙ ap (λ a. a ∷ n ∷ r ∷ p ∷ salt ∷ expected ∷ rest) scrypt_named;
        salted = ground arith;
        set = ground arith;
        derived = derives-eq secret salt n r p expected (ground arith);
      }
  parts-IsSecret secret hash ps e h = absurd (cc (rw (e, verify_api_secret) at h))

  usable-IsSecret :
      (client : Client) (secret : String) (now : ℕ)
      → usable scrypt parse_date client secret now ≡ true
      → IsSecret secret client.secret_hash
  unfolding usable
  usable-IsSecret client secret now h =
      parts-IsSecret secret client.secret_hash (split_dollar client.secret_hash) refl (ground arith)

  allows-includes :
      (allowed : Option (List String)) (t : String)
      → allows allowed t ≡ true
      → (ts : List String) × (allowed ≡ some ts) × (includes ts t ≡ true)
  unfolding allows
  allows-includes none t h = cc
  allows-includes (some ts) t h = (ts, refl, h)

  client_of-eq : (l : Lookup Client) (c : Client) → client_of l ≡ returned c → l ≡ found c
  unfolding client_of
  client_of-eq broken c h = cc
  client_of-eq missing c h = cc
  client_of-eq (found d) c h = ground arith

  registered_lem :
      (key_id secret : String) (requested : Option String) (lookup : Lookup Client) (now : ℕ)
      (auth : Auth)
      → registered scrypt parse_date key_id secret requested lookup now ≡ returned auth
      → (client : Client) × (lookup ≡ found client)
        × (usable scrypt parse_date client secret now ≡ true)
        × (requested ≡ some auth.tenant_id)
        × (allows client.allowed_tenants auth.tenant_id ≡ true)
        × (auth.key_id ≡ key_id)
        × (auth.managed_tenant ≡ client.managed_tenant_id)
  unfolding registered
  registered_lem key_id secret requested lookup now auth h =
      let (client, known, h₁) = >>=-returned (client_of lookup) _ h in
      let (fit, h₂) = >>-ensure (usable scrypt parse_date client secret now) _ _ h₁ in
      let (tenant, named, h₃) = >>=-returned (or_refused requested _) _ h₂ in
      let (allowed, h₄) = >>-ensure (allows client.allowed_tenants tenant) _ _ h₃ in
      let t : tenant ≡ auth.tenant_id = ground arith in
      (
        client,
        client_of-eq lookup client known,
        fit,
        rw (← t) (or_refused-eq requested _ tenant named),
        rw (← t) allowed,
        ground arith,
        ground arith,
      )

  legacy_lem :
      (legacy_tenant : String) (requested : Option String) (auth : Auth)
      → legacy legacy_tenant requested ≡ returned auth
      → (auth.tenant_id ≡ trim legacy_tenant)
        × (filled (trim legacy_tenant) ≡ true)
        × ((truthy requested ≡ false) ⊎ (requested ≡ some (trim legacy_tenant)))
  unfolding legacy
  legacy_lem legacy_tenant requested auth h =
      let tenant = trim legacy_tenant in
      let (set, h₁) = >>-ensure (filled tenant) _ _ h in
      let (own, h₂) = >>-ensure (not (truthy requested) || same? requested (some tenant)) _ _ h₁ in
      (
        ground arith,
        set,
        elim (Bool-cases (truthy requested)) [
          | inr e ↦ inl e
          | inl e ↦ inr ((same?_iff requested (some tenant)).0 (ground arith))
        ],
      )

  by_client_lem :
      (provided : String) (request : Request) (t : String) (db : Bool)
      (clients : String → Lookup Client) (now : ℕ) (auth : Auth)
      → tenant_from_request request ≡ names t
      → by_client scrypt parse_date provided (some t) db clients now ≡ returned auth
      → IsClient provided request clients now auth
  unfolding by_client
  by_client_lem provided request t db clients now auth q h =
      let (parts, cut, h₁) = >>=-returned (or_refused (key_parts provided) _) _ h in
      let (d, h₂) = >>-ensure db _ _ h₁ in
      let (client, known, fit, named, allowed, id, managed) =
        registered_lem parts.0 parts.1 (some t) (clients parts.0) now auth h₂ in
      let same_tenant : t ≡ auth.tenant_id = ground arith in
      let (tenants, restricted, has_tenant) =
        allows-includes client.allowed_tenants auth.tenant_id allowed in
      record {
        secret = parts.1;
        client = client;
        key = rw id (or_refused-eq (key_parts provided) _ parts cut);
        registered = rw id known;
        not_revoked = usable-not_revoked client parts.1 now fit;
        not_expired = λ date e f. usable-not_expired client parts.1 now date fit e f;
        verified = usable-IsSecret client parts.1 now fit;
        tenants = tenants;
        restricted = restricted;
        allowed = has_tenant;
        requested = q ∙ ap names same_tenant;
        managed = managed;
      }

  by_client-named :
      (provided : String) (db : Bool) (clients : String → Lookup Client) (now : ℕ) (auth : Auth)
      → by_client scrypt parse_date provided none db clients now ≢ returned auth
  unfolding by_client
  by_client-named provided db clients now auth h =
      let (parts, _, h₁) = >>=-returned (or_refused (key_parts provided) _) _ h in
      let (_, h₂) = >>-ensure db _ _ h₁ in
      let (_, _, _, named, _, _, _) =
        registered_lem parts.0 parts.1 none (clients parts.0) now auth h₂ in
      cc

  legacy-IsLegacy :
      (api_key : Option String) (legacy_tenant provided : String) (request : Request)
      (requested : Option String) (auth : Auth)
      → requested_of (tenant_from_request request) ≡ returned requested
      → same? api_key (some provided) ≡ true
      → legacy legacy_tenant requested ≡ returned auth
      → IsLegacy api_key legacy_tenant provided request auth
  legacy-IsLegacy api_key legacy_tenant provided request requested auth q k h =
      let (tenant, set, own) = legacy_lem legacy_tenant requested auth h in
      record {
        key = (same?_iff api_key (some provided)).0 k;
        tenant = tenant;
        set = rw tenant set;
        requested = λ t named full.
            let e : requested ≡ some t =
              requested_of-names (tenant_from_request request) requested t q named in
            elim own [
              | inl blank ↦ absurd (cc (rw e at blank))
              | inr other ↦ ground (arith, tenant)
            ];
      }

  by_key-cases :
      (api_key : Option String) (legacy_tenant provided : String) (request : Request)
      (requested : Option String) (db : Bool) (clients : String → Lookup Client) (now : ℕ)
      (auth : Auth)
      → requested_of (tenant_from_request request) ≡ returned requested
      → by_key scrypt parse_date api_key legacy_tenant provided requested db clients now
        ≡ returned auth
      → IsLegacy api_key legacy_tenant provided request auth
        ⊎ IsClient provided request clients now auth
  unfolding by_key
  by_key-cases api_key legacy_tenant provided request requested db clients now auth q h =
      elim (Bool-cases (truthy api_key && same? api_key (some provided))) [
        | inl e ↦ inl (
            legacy-IsLegacy api_key legacy_tenant provided request requested auth q (ground arith)
              (rw (e, by_key) at h))
        | inr e ↦ elim (requested_of-cases (tenant_from_request request) requested q) [
          | inl (_, n) ↦
              absurd (by_client-named provided db clients now auth (rw (e, by_key, n) at h))
          | inr (t, named, n) ↦
              inr (
                by_client_lem provided request t db clients now auth named (rw (e, by_key, n) at h))
        ]
      ]

  pub authenticate-cases :
      (api_key : Option String) (legacy_tenant provided : String) (request : Request) (db : Bool)
      (clients : String → Lookup Client) (now : ℕ) (auth : Auth)
      → authenticate scrypt parse_date api_key legacy_tenant provided request db clients now
        ≡ returned auth
      → IsLegacy api_key legacy_tenant provided request auth
        ⊎ IsClient provided request clients now auth
  unfolding authenticate
  authenticate-cases api_key legacy_tenant provided request db clients now auth h =
      let (_, h₁) = >>-ensure (filled provided) _ _ h in
      let (requested, q, h₂) = >>=-returned (requested_of (tenant_from_request request)) _ h₁ in
      by_key-cases api_key legacy_tenant provided request requested db clients now auth q h₂
