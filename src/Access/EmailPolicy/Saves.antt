-- ===== src/Access/EmailPolicy/Saves.antt =====
-- emailPolicy.js, saveEmailPolicy: competing saves.
use communications_service.Prelude.{
  >>-ensure, returned, >>=-returned, >>-ensure, Outcome-cases, String, Bool, true, ◌&&◌, Option,
  some, ◌≡◌, ◌≢◌, sym, ap, inl, inr, arith, Bool-cases, eq_iff,
}
use communications_service.Prelude.Text.{filled}
use communications_service.Storage.Json.{Value, Fields, undefined, text, put, get-put}
use communications_service.Access.EmailPolicy.{
  is_mode, email_send_mode, version_of, matches, saved_metadata, Answer, Current, Setting,
  unchanged, prepare_save, write_save, has_version, save_email_policy, read_row,
}

version_of-saved :
    (read : Fields) (mode : Value) (fresh : String)
    → filled fresh ≡ true
    → version_of (saved_metadata read mode fresh) ≡ text fresh
unfolding version_of saved_metadata
version_of-saved read mode fresh f =
    rw (get-put "email_policy_version" (text fresh) (put "email_send_policy" mode read), f)

matches-eq :
    (version : Value) (fresh : String) → matches version (text fresh) ≡ true → version ≡ text fresh
unfolding matches
matches-eq (text s) fresh h = ap text (sym ((eq_iff fresh s).0 h))
matches-eq v fresh h = cc

module _ (equal : Fields → Fields → Bool) (env : Option Value) (tenant : Value) where
  prepare_save-matches :
      (db : Bool) (mode version : Value) (prior : Answer) (read : Fields)
      → prepare_save env tenant db mode version prior ≡ returned read
      → matches version (version_of read) ≡ true
  unfolding prepare_save
  prepare_save-matches db mode version prior read h =
      let (m, _, h₁) = >>=-returned (email_send_mode env tenant undefined) _ h in
      let (_, h₂) = >>-ensure (is_mode mode && has_version version) _ _ h₁ in
      let (_, h₃) = >>-ensure db _ _ h₂ in
      let (metadata, _, h₄) = >>=-returned (read_row prior) _ h₃ in
      let (fits, h₅) = >>-ensure (matches version (version_of metadata)) _ _ h₄ in
      let q : metadata ≡ read = ground arith in rw (← q) fits

  write_save-row :
      (read : Fields) (now : Current) (mode : Value) (fresh : String) (m : Fields) (s : Setting)
      → write_save equal env tenant read now mode fresh ≡ (some m, returned s)
      → m ≡ saved_metadata read mode fresh
  unfolding write_save
  write_save-row read now mode fresh m s h = ground arith

  save-row :
      (db : Bool) (mode version : Value) (fresh : String) (prior : Answer) (now : Current)
      (m : Fields) (s : Setting)
      → save_email_policy equal env tenant db mode version fresh prior now ≡ (some m, returned s)
      → (read : Fields) × (m ≡ saved_metadata read mode fresh)
  unfolding save_email_policy
  save-row db mode version fresh prior now m s h =
      elim (Outcome-cases (prepare_save env tenant db mode version prior)) [
        | inl (e, p) ↦ absurd (cc (rw (p, save_email_policy) at h))
        | inr (read, p) ↦
            (read, write_save-row read now mode fresh m s (rw (p, save_email_policy) at h))
      ]

  -- Once a save has gone through, no other save that still quotes the version it was based on
  -- changes the row, whatever row that one had read and whatever it asks for. The database compares
  -- metadata by value, and the new version is not empty and is not the old one.
  pub save-stale :
      (sound : (a b : Fields) → equal a b ≡ true → a ≡ b) (db : Bool) (mode mode' version : Value)
      (fresh fresh' : String) (prior prior' : Answer) (now : Current) (m : Fields) (s : Setting)
      (broken : Bool)
      → filled fresh ≡ true
      → version ≢ text fresh
      → save_email_policy equal env tenant db mode version fresh prior now ≡ (some m, returned s)
      → (save_email_policy equal env tenant db mode' version fresh' prior'
          (record { row = some m; broken = broken })).0
        ≡ some m
  unfolding save_email_policy write_save unchanged
  save-stale sound db mode mode' version fresh fresh' prior prior' now m s broken f ne h =
      elim (Outcome-cases (prepare_save env tenant db mode' version prior')) [
        | inl (e, p) ↦ rw (p, save_email_policy)
        | inr (read', p) ↦ elim (Bool-cases (equal m read')) [
          | inl same_row ↦ absurd (ne (stale read' p (sound m read' same_row)))
          | inr other ↦ rw (p, save_email_policy) (ground arith)
        ]
      ]
    where
      stale :
          (read' : Fields)
          → prepare_save env tenant db mode' version prior' ≡ returned read'
          → m ≡ read'
          → version ≡ text fresh
      stale read' p q =
          let (read, made) = save-row db mode version fresh prior now m s h in
          let v : version_of read' ≡ text fresh =
            rw (← q, made) (version_of-saved read mode fresh f) in
          matches-eq version fresh (rw v at (prepare_save-matches db mode' version prior' read' p))
