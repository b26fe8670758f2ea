-- ===== src/Prelude/Text.antt =====
-- JavaScript's methods of strings, on lists of code points.
use Prim.Native.Nat.{ℕ, ◌-◌}
use Prim.Native.Char.{code}
use Prim.Native.String.{String, len, slice}
use mathlib.Core.Path.{◌≡◌, refl, ap₂}
use mathlib.Core.Bool.{Bool, true, false}
use mathlib.Core.List.{List, [], ◌∷◌}
use native.Mathlib.Omega.{arith}
use text.Mathlib.Text.{starts_with, find?}
use text.Mathlib.TextEquality.{Char-path}
use hubspot_salesforce_conne.Prelude.Tests.{if◌then◌else◌, is_some, ltb, leb, nat_eq}

-- `s.includes(t)`
abbrev pub includes : String → String → Bool
includes s t = is_some (find? s t)

-- `s.endsWith(t)`, for a `t` of ASCII characters
abbrev pub ends_with : String → String → Bool
ends_with s t =
    if leb (len t) (len s) then starts_with (slice s (len s - len t) (len s)) t else false

-- `s.split(c)` at the character with a code: the first part, and the others
split_rest : ℕ → String → String × List String
split_rest at String.[] = ("", [])
split_rest at (String.◌∷◌ c s) =
    let (part, parts) = split_rest at s in
    if nat_eq (code c) at then ("", part ∷ parts) else (String.◌∷◌ c part, parts)

unfoldable pub split_at : ℕ → String → List String
unfolding split_rest
split_at at s = let (part, parts) = split_rest at s in part ∷ parts

-- the order of `sort()`
unfoldable pub text_le : String → String → Bool
text_le String.[] t = true
text_le (String.◌∷◌ c s) String.[] = false
text_le (String.◌∷◌ c s) (String.◌∷◌ d t) =
    if ltb (code c) (code d) then true else if ltb (code d) (code c) then false else text_le s t

pub text_le_total : (s t : String) → text_le s t ≡ false → text_le t s ≡ true
unfolding text_le
text_le_total String.[] t h = absurd (ground (arith, h))
text_le_total (String.◌∷◌ c s) String.[] h = refl
text_le_total (String.◌∷◌ c s) (String.◌∷◌ d t) h = ground (arith, h, text_le_total s t)

pub text_le_trans : (s t u : String) → text_le s t ≡ true → text_le t u ≡ true → text_le s u ≡ true
unfolding text_le
text_le_trans String.[] t u h k = refl
text_le_trans (String.◌∷◌ c s) String.[] u h k = ground (arith, h)
text_le_trans (String.◌∷◌ c s) (String.◌∷◌ d t) String.[] h k = ground (arith, k)
text_le_trans (String.◌∷◌ c s) (String.◌∷◌ d t) (String.◌∷◌ e u) h k =
    ground (arith, h, k, text_le_trans s t u)

same_code :
    (c d : Prim.Native.Char.Char)
    → ltb (code c) (code d) ≡ false
    → ltb (code d) (code c) ≡ false
    → c ≡ d
same_code c d h k = Char-path c d (ground (arith, h, k))

pub text_le_antisym : (s t : String) → text_le s t ≡ true → text_le t s ≡ true → s ≡ t
unfolding text_le
text_le_antisym String.[] String.[] h k = refl
text_le_antisym String.[] (String.◌∷◌ d t) h k = absurd (ground (arith, k))
text_le_antisym (String.◌∷◌ c s) String.[] h k = absurd (ground (arith, h))
text_le_antisym (String.◌∷◌ c s) (String.◌∷◌ d t) h k =
    ap₂ String.◌∷◌ (same_code c d (ground (arith, h, k)) (ground (arith, h, k)))
      (text_le_antisym s t (ground (arith, h, k)) (ground (arith, h, k)))
