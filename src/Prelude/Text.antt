-- ===== src/Prelude/Text.antt =====
-- JavaScript's conventions on text: truthiness, `||`, `===` on values that may be missing,
-- `includes` and `trim`. A value that may be undefined or null is an `Option String`; the empty
-- text is falsy too.
use Prim.Native.Char.{code}
use Prim.Native.Nat.{ℕ}
use Prim.Native.String.{String}
use mathlib.Core.Path.{◌≡◌}
use mathlib.Core.Logic.{◌↔◌}
use mathlib.Core.Bool.{Bool, true, false, not, ◌&&◌, ◌||◌}
use mathlib.Core.Option.{Option, none, some}
use mathlib.Core.List.{List, [], ◌∷◌}
use native.Mathlib.Omega.{arith}
use text.Mathlib.Text.{◌==◌}
use text.Mathlib.TextEquality.{eq_iff}
use communications_service.Prelude.Tests.{leb, eqb, if◌then◌else◌}

-- `===` on texts.
abbrev pub same : String → String → Bool
same a b = a == b

-- `Boolean(s)`
abbrev pub filled : String → Bool
filled s = not (s == "")

abbrev pub truthy : Option String → Bool
truthy none = false
truthy (some s) = filled s

-- `a || b`
abbrev pub or_else : Option String → Option String → Option String
or_else a b = if truthy a then a else b

-- `a === b` where both may be undefined.
abbrev pub same? : Option String → Option String → Bool
same? none none = true
same? none (some b) = false
same? (some a) none = false
same? (some a) (some b) = same a b

pub same?_iff : (a b : Option String) → (same? a b ≡ true) ↔ (a ≡ b)
same?_iff none none = ground arith
same?_iff none (some b) = ground arith
same?_iff (some a) none = ground arith
same?_iff (some a) (some b) = ground (arith, eq_iff a b)

-- `xs.includes(x)`
unfoldable pub includes : List String → String → Bool
includes [] x = false
includes (y ∷ ys) x = same y x || includes ys x

-- The white space and line terminators that `trim` removes.
unfoldable pub is_space : ℕ → Bool
is_space c =
    (leb 9 c && leb c 13)
    || eqb c 32
    || eqb c 160
    || eqb c 5760
    || (leb 8192 c && leb c 8202)
    || eqb c 8232
    || eqb c 8233
    || eqb c 8239
    || eqb c 8287
    || eqb c 12288
    || eqb c 65279

-- `Boolean(s.trim())`: some character is no white space.
unfoldable pub has_text : String → Bool
unfolding is_space
has_text String.[] = false
has_text (String.◌∷◌ c s) = not (is_space (code c)) || has_text s

trim_start : String → String
trim_start String.[] = ""
trim_start (String.◌∷◌ c s) =
    let r = trim_start s in if is_space (code c) then r else String.◌∷◌ c s

trim_end : String → String
trim_end String.[] = ""
trim_end (String.◌∷◌ c s) =
    if is_space (code c) && not (has_text s) then "" else String.◌∷◌ c (trim_end s)

-- `s.trim()`
unfoldable pub trim : String → String
unfolding trim_start trim_end has_text is_space
trim s = trim_end (trim_start s)
