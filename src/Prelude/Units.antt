-- ===== src/Prelude/Units.antt =====
-- Texts as JavaScript orders and matches them: UTF-16 units, `<`, and the source's patterns for dates.
use Prim.Native.Char.{code}
use Prim.Native.Nat.{ℕ, zero, suc, ◌+◌, ◌-◌, ◌/◌, ◌%◌}
use Prim.Native.String.{String}
use mathlib.Core.Bool.{Bool, true, false, ◌&&◌, ◌||◌}
use mathlib.Core.List.{List, [], ◌∷◌}
use communications_service.Prelude.Tests.{ltb, leb, eqb, if◌then◌else◌}

abbrev pub codes : String → List ℕ
codes String.[] = []
codes (String.◌∷◌ c s) = code c ∷ codes s

unfoldable pub units : String → List ℕ
units String.[] = []
units (String.◌∷◌ c s) =
    let n = code c in
    let rest = units s in
    if ltb n 65536
    then n ∷ rest
    else (55296 + (n - 65536) / 1024) ∷ (56320 + (n - 65536) % 1024) ∷ rest

unfoldable pub units_lt : List ℕ → List ℕ → Bool
units_lt us [] = false
units_lt [] (v ∷ vs) = true
units_lt (u ∷ us) (v ∷ vs) = ltb u v || (eqb u v && units_lt us vs)

-- `a < b`
unfoldable pub text_lt : String → String → Bool
unfolding units units_lt
text_lt a b = units_lt (units a) (units b)

is_digit : ℕ → Bool
is_digit c = leb 48 c && leb c 57

-- `\d{2}:\d{2}` to the end
is_offset : List ℕ → Bool
unfolding is_digit
is_offset (a ∷ b ∷ c ∷ d ∷ e ∷ []) =
    is_digit a && is_digit b && eqb c 58 && is_digit d && is_digit e
is_offset _ = false

is_zone : List ℕ → Bool
unfolding is_offset
is_zone [] = false
is_zone (c ∷ []) = eqb c 90
is_zone (c ∷ cs) = (eqb c 43 || eqb c 45) && is_offset cs

zone_at_end : List ℕ → Bool
unfolding is_zone
zone_at_end [] = false
zone_at_end (c ∷ cs) = is_zone (c ∷ cs) || zone_at_end cs

-- `/(Z|[+-]\d{2}:\d{2})$/`
unfoldable pub has_zone : String → Bool
unfolding zone_at_end
has_zone s = zone_at_end (codes s)

date_codes : List ℕ → Bool
unfolding is_digit
date_codes (a ∷ b ∷ c ∷ d ∷ e ∷ f ∷ g ∷ h ∷ i ∷ j ∷ []) =
    is_digit a
    && is_digit b
    && is_digit c
    && is_digit d
    && eqb e 45
    && is_digit f
    && is_digit g
    && eqb h 45
    && is_digit i
    && is_digit j
date_codes _ = false

-- `/^\d{4}-\d{2}-\d{2}$/`
unfoldable pub is_date : String → Bool
unfolding date_codes
is_date s = date_codes (codes s)

-- `s.slice(0, n)`, for a text without characters beyond the first plane.
unfoldable pub prefix : ℕ → String → String
prefix zero s = ""
prefix (suc n) String.[] = ""
prefix (suc n) (String.◌∷◌ c s) = String.◌∷◌ c (prefix n s)
