-- ===== src/Storage/Json.antt =====
-- The JavaScript values that requests, payloads and filters carry.
use communications_service.Prelude.{
  ◌≢◌, ap, ℕ, String, Bool, true, false, not, if◌then◌else◌, eqb, ◌≡◌, arith, eq_iff, eq_refl,
}
use communications_service.Prelude.Text.{same, filled}

mutual
  pub data Value : Type 0 where
    undefined null : Value
    boolean : Bool → Value
    number : ℕ → Value
    text : String → Value
    array : Values → Value
    object : Fields → Value

  pub data Values : Type 0 where
    nil : Values
    cons : Value → Values → Values

  pub data Fields : Type 0 where
    end : Fields
    field : String → Value → Fields → Fields

-- `Boolean(v)`
abbrev pub truthy_value : Value → Bool
truthy_value undefined = false
truthy_value null = false
truthy_value (boolean b) = b
truthy_value (number n) = not (eqb n 0)
truthy_value (text s) = filled s
truthy_value (array vs) = true
truthy_value (object fs) = true

-- `v === s` for a text.
abbrev pub is_text : String → Value → Bool
is_text s (text r) = same r s
is_text s undefined = false
is_text s null = false
is_text s (boolean b) = false
is_text s (number n) = false
is_text s (array vs) = false
is_text s (object fs) = false

-- `o[k]`
unfoldable pub get : String → Fields → Value
get k end = undefined
get k (field j v fs) = if same j k then v else get k fs

-- `{ ...o, [k]: v }`
unfoldable pub put : String → Value → Fields → Fields
put k v end = field k v end
put k v (field j w fs) = if same j k then field j v fs else field j w (put k v fs)

-- `Object.hasOwn(o, k)`
unfoldable pub has : String → Fields → Bool
has k end = false
has k (field j v fs) = if same j k then true else has k fs

pub get-put : (k : String) (v : Value) (fs : Fields) → get k (put k v fs) ≡ v
unfolding get put
get-put k v end = rw (eq_refl k)
get-put k v (field j w fs) = ground (arith, get-put k v fs)

abbrev is_undefined : Value → Bool
is_undefined undefined = true
is_undefined null = false
is_undefined (boolean b) = false
is_undefined (number n) = false
is_undefined (text s) = false
is_undefined (array vs) = false
is_undefined (object fs) = false

-- `Object.fromEntries(Object.entries(o).filter(([, value]) => value !== undefined))`
unfoldable pub defined : Fields → Fields
defined end = end
defined (field k v fs) = if is_undefined v then defined fs else field k v (defined fs)

pub get-defined_text :
    (k s : String) (fs : Fields) → get k fs ≡ text s → get k (defined fs) ≡ text s
unfolding get defined
get-defined_text k s end h = cc
get-defined_text k s (field j undefined fs) h = ground (arith, get-defined_text k s fs)
get-defined_text k s (field j v fs) h = ground (arith, get-defined_text k s fs)

pub get-put_ne : (k j : String) (v : Value) (fs : Fields) → k ≢ j → get k (put j v fs) ≡ get k fs
unfolding get put
get-put_ne k j v end h = ground (arith, eq_iff j k)
get-put_ne k j v (field i w fs) h =
    ground (arith, eq_iff j k, eq_iff i j, eq_iff i k, get-put_ne k j v fs h)

pub is_text-eq : (s : String) (v : Value) → is_text s v ≡ true → v ≡ text s
is_text-eq s (text r) h = ap text ((eq_iff r s).0 h)
is_text-eq s v h = cc
