-- ===== src/Access/EmailPolicy/Tests.antt =====
-- The policy on one tenant, and two administrators who save from the same version.
use communications_service.Prelude.{
  returned, thrown, Bool, true, false, ◌&&◌, Option, some, ◌≡◌, ◌≢◌, refl, arith, eq_iff,
}
use communications_service.Prelude.Text.{has_text}
use communications_service.Storage.Json.{
  Value, Fields, undefined, text, object, end, field, get, put, has,
}
use communications_service.Access.EmailPolicy.{
  allow_send, draft_only_403, email_send_mode, assert_email_send_allowed, saved_metadata, found,
  Current, Setting, save_email_policy,
}
use communications_service.Access.EmailPolicy.Laws.{Allows, email_send_mode-Allows}
use communications_service.Access.EmailPolicy.Saves.{save-stale}

abbrev environment : Option Value
environment =
    some (object (field "acme" (text "draft_only") (field "beta" (text "allow_send") end)))

restricted :
    assert_email_send_allowed environment (text "acme") (text "allow_send") ≡ thrown draft_only_403
unfolding assert_email_send_allowed get has has_text
restricted = refl

email_send_mode-Allows_example : Allows environment (text "beta") undefined
unfolding email_send_mode get has has_text
email_send_mode-Allows_example = email_send_mode-Allows environment (text "beta") undefined refl

-- A comparison that finds only empty metadata equal.
abbrev is_end : Fields → Bool
is_end end = true
is_end (field k v fs) = false

abbrev both_empty : Fields → Fields → Bool
both_empty a b = is_end a && is_end b

both_empty_sound : (a b : Fields) → both_empty a b ≡ true → a ≡ b
both_empty_sound end end h = refl
both_empty_sound end (field k v fs) h = cc
both_empty_sound (field k v fs) b h = cc

abbrev first_row : Fields
first_row =
    field "email_send_policy" (text "allow_send") (field "email_policy_version" (text "v1") end)

abbrev setting : Setting
setting = record { mode = allow_send; configured_mode = text "allow_send"; version = text "v1" }

abbrev empty_row : Current
empty_row = record { row = some end; broken = false }

first_save :
    save_email_policy both_empty
      (some (object end))
      (text "acme")
      true
      (text "allow_send")
      (text "unconfigured")
      "v1"
      (found end)
      empty_row
    ≡ (some first_row, returned setting)
unfolding save_email_policy saved_metadata get has put has_text
first_save = refl

old_version : ◌≢◌ {A = Value} (text "unconfigured") (text "v1")
old_version = ground (arith, eq_iff "unconfigured" "v1")

save-stale_example :
    (save_email_policy both_empty
      (some (object end))
      (text "acme")
      true
      (text "draft_only")
      (text "unconfigured")
      "v2"
      (found end)
      (record { row = some first_row; broken = false })).0
    ≡ some first_row
save-stale_example =
    save-stale both_empty (some (object end)) (text "acme") both_empty_sound true
      (text "allow_send") (text "draft_only") (text "unconfigured") "v1" "v2" (found end)
      (found end) empty_row first_row setting false refl old_version first_save
