-- ===== src/Access/EmailPolicy.antt =====
-- emailPolicy.js: whether a tenant's email may be sent. `env` is the value of the environment's
-- EMAIL_SEND_POLICY_BY_TENANT after JSON.parse (none where parsing throws). The tenant's row is
-- read and written through the database, where another writer may come in between.
pub mod Laws
pub mod Saves
pub mod Tests
use communications_service.Prelude.{
  String, Bool, true, false, not, ◌&&◌, ◌||◌, Option, none, some, if◌then◌else◌, Outcome, thrown,
  returned, ensure, ◌>>=◌, ◌>>◌, >>=-returned, Outcome-cases, inl, inr, Bool-cases,
}
use communications_service.Prelude.Text.{same, has_text}
use communications_service.Storage.Json.{
  Value, Values, Fields, undefined, null, boolean, number, text, array, object, nil, cons, end,
  field, truthy_value, is_text, get, put, has,
}

pub data Mode : Type 0 where
  draft_only allow_send : Mode

-- The errors that the functions throw, with their status.
pub data Refusal : Type 0 where
  unauthenticated_403 misconfigured_503 invalid_stored_503 draft_only_403 : Refusal
  bad_input_400 unavailable_503 conflict_409 not_saved_503 : Refusal

pub is_mode : Value → Bool
is_mode v = is_text "draft_only" v || is_text "allow_send" v

modes_only : Fields → Bool
unfolding is_mode
modes_only end = true
modes_only (field k v fs) = is_mode v && modes_only fs

-- The environment's policy: an object whose values are modes.
pub policy_of : Option Value → Option Fields
unfolding modes_only
policy_of (some (object fs)) = if modes_only fs then some fs else none
policy_of (some (array vs)) = none
policy_of (some undefined) = none
policy_of (some null) = none
policy_of (some (boolean b)) = none
policy_of (some (number n)) = none
policy_of (some (text s)) = none
policy_of none = none

abbrev or_misconfigured : Option Fields → Outcome Refusal Fields
or_misconfigured none = thrown misconfigured_503
or_misconfigured (some fs) = returned fs

named_tenant : Value → Outcome Refusal String
named_tenant (text s) = if has_text s then returned s else thrown unauthenticated_403
named_tenant undefined = thrown unauthenticated_403
named_tenant null = thrown unauthenticated_403
named_tenant (boolean b) = thrown unauthenticated_403
named_tenant (number n) = thrown unauthenticated_403
named_tenant (array vs) = thrown unauthenticated_403
named_tenant (object fs) = thrown unauthenticated_403

abbrev is_undefined : Value → Bool
is_undefined undefined = true
is_undefined null = false
is_undefined (boolean b) = false
is_undefined (number n) = false
is_undefined (text s) = false
is_undefined (array vs) = false
is_undefined (object fs) = false

-- The two settings combined; a restriction on either side wins.
combined : Fields → String → Value → Mode
combined policy tenant account =
    if is_text "draft_only" account
      || (has tenant policy && is_text "draft_only" (get tenant policy))
    then draft_only
    else if truthy_value account
    then allow_send
    else if has tenant policy
    then allow_send
    else draft_only

pub email_send_mode : Option Value → Value → Value → Outcome Refusal Mode
unfolding named_tenant policy_of combined is_mode
email_send_mode env tenant account = do
  name ← named_tenant tenant
  policy ← or_misconfigured (policy_of env)
  ensure (is_undefined account || is_mode account) invalid_stored_503
  returned (combined policy name account)

abbrev only_send : Mode → Outcome Refusal (Unit {0})
only_send allow_send = returned tt
only_send draft_only = thrown draft_only_403

pub assert_email_send_allowed : Option Value → Value → Value → Outcome Refusal (Unit {0})
unfolding email_send_mode
assert_email_send_allowed env tenant account = email_send_mode env tenant account >>= only_send

-- A tenant's row as the database answers it: an error, no row, or its metadata.
pub data Answer : Type 0 where
  failed missing : Answer
  found : Fields → Answer

pub record Setting : Type 0 where
  pub mode : Mode
  pub configured_mode : Value
  pub version : Value

-- `metadata?.email_policy_version || 'unconfigured'`
pub version_of : Fields → Value
version_of metadata =
    let v = get "email_policy_version" metadata in if truthy_value v then v else text "unconfigured"

-- `metadata?.email_send_policy || null`
configured_of : Fields → Value
configured_of metadata =
    let v = get "email_send_policy" metadata in if truthy_value v then v else null

abbrev read_row : Answer → Outcome Refusal Fields
read_row failed = thrown unavailable_503
read_row missing = thrown unavailable_503
read_row (found metadata) = returned metadata

-- `db` is whether a database is configured.
pub read_email_policy : Option Value → Value → (db : Bool) → Answer → Outcome Refusal Setting
unfolding email_send_mode version_of configured_of
read_email_policy env tenant db answer = do
  allowed ← email_send_mode env tenant undefined
  ensure db unavailable_503
  metadata ← read_row answer
  mode ← email_send_mode env tenant (get "email_send_policy" metadata)
  returned (record {
    mode = mode;
    configured_mode = configured_of metadata;
    version = version_of metadata;
  })

has_version : Value → Bool
has_version (text s) = has_text s
has_version undefined = false
has_version null = false
has_version (boolean b) = false
has_version (number n) = false
has_version (array vs) = false
has_version (object fs) = false

-- `stored === version` for the version of the request.
matches : Value → Value → Bool
matches (text s) v = is_text s v
matches undefined v = false
matches null v = false
matches (boolean b) v = false
matches (number n) v = false
matches (array vs) v = false
matches (object fs) v = false

-- The metadata that a save writes; `fresh` is the random version.
pub saved_metadata : Fields → (mode : Value) → (fresh : String) → Fields
saved_metadata metadata mode fresh =
    put "email_policy_version" (text fresh) (put "email_send_policy" mode metadata)

-- The checks before the write: the metadata that was read, which the write will be conditional on.
pub prepare_save :
    Option Value
    → Value
    → (db : Bool) → (mode version : Value) → (prior : Answer) → Outcome Refusal Fields
unfolding email_send_mode is_mode has_version version_of matches
prepare_save env tenant db mode version prior = do
  allowed ← email_send_mode env tenant undefined
  ensure (is_mode mode && has_version version) bad_input_400
  ensure db unavailable_503
  metadata ← read_row prior
  ensure (matches version (version_of metadata)) conflict_409
  returned metadata

-- The row when the conditional update runs: gone, or with this metadata; `broken` is whether the
-- database then answers an error.
pub record Current : Type 0 where
  pub row : Option Fields
  pub broken : Bool

unchanged : (Fields → Fields → Bool) → Fields → Option Fields → Bool
unchanged equal read none = false
unchanged equal read (some metadata) = equal metadata read

saved_setting : Option Value → Value → Value → String → Outcome Refusal Setting
saved_setting env tenant mode fresh = do
  effective ← email_send_mode env tenant mode
  returned (record { mode = effective; configured_mode = mode; version = text fresh })

-- The update writes only while the row still holds the metadata that was read. `equal` is the
-- database's equality on metadata.
pub write_save :
    (equal : Fields → Fields → Bool)
    → Option Value
    → Value
    → (read : Fields) → (now : Current) → (mode : Value) → (fresh : String)
    → Option Fields × Outcome Refusal Setting
unfolding unchanged saved_setting
write_save equal env tenant read now mode fresh =
    if now.broken
    then (now.row, thrown not_saved_503)
    else if unchanged equal read now.row
    then (some (saved_metadata read mode fresh), saved_setting env tenant mode fresh)
    else (now.row, thrown conflict_409)

-- `saveEmailPolicy`: `prior` is the row that it reads, `now` the row when it writes. The row that
-- is left, and the answer.
pub save_email_policy :
    (equal : Fields → Fields → Bool)
    → Option Value
    → Value
    → (db : Bool) → (mode version : Value) → (fresh : String) → (prior : Answer) → (now : Current)
    → Option Fields × Outcome Refusal Setting
unfolding prepare_save write_save
save_email_policy equal env tenant db mode version fresh prior now =
    elim (prepare_save env tenant db mode version prior) [
      | thrown e ↦ (now.row, thrown e)
      | returned read ↦ write_save equal env tenant read now mode fresh
    ]
