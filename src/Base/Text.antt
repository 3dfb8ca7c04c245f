-- ===== src/Base/Text.antt =====
-- Python strings as lists of code points, with the methods that the program calls. `lower`
-- and `upper` map the ASCII letters and keep every other code point.
use google_ads_intelligence.Base.Tests.{if◌then◌else◌, ◌==◌, leb}
use google_ads_intelligence.Base.Lists.{keep}
use google_ads_intelligence.Base.Eq.{◌=?◌, nat_eq, list_eq, mem}
use Prim.Native.Nat.{ℕ, ◌+◌, ◌-◌}
use Prim.Native.Char.{code}
use Prim.Native.String.{String}
use mathlib.Core.Path.{◌≡◌, refl}
use mathlib.Core.Bool.{Bool, true, false, not, ◌&&◌, ◌||◌}
use mathlib.Core.Option.{Option, none, some}
use mathlib.Core.List.{List, [], ◌∷◌, map, reverse}
use native.Mathlib.Omega.{arith}

abbrev pub Text : Type 0
Text = List ℕ

-- The code points of a literal.
abbrev pub codes : String → Text
codes String.[] = []
codes (String.◌∷◌ c s) = code c ∷ codes s

-- Truthiness of a string.
abbrev pub is_nonempty : Text → Bool
is_nonempty [] = false
is_nonempty (_ ∷ _) = true

-- `s or ""`
abbrev pub or_empty : Option Text → Text
or_empty none = []
or_empty (some s) = s

-- `s or d`, for a string that may be None or empty.
abbrev pub or_text : Option Text → Text → Text
or_text none d = d
or_text (some s) d = if is_nonempty s then s else d

-- `s or None`
abbrev pub nonempty_or_none : Text → Option Text
nonempty_or_none s = if is_nonempty s then some s else none

unfoldable pub lower_code : ℕ → ℕ
lower_code c = if leb 65 c && leb c 90 then c + 32 else c

unfoldable pub lower : Text → Text
unfolding lower_code
lower s = map lower_code s

unfoldable pub upper_code : ℕ → ℕ
upper_code c = if leb 97 c && leb c 122 then c - 32 else c

unfoldable pub upper : Text → Text
unfolding upper_code
upper s = map upper_code s

-- The code points that `str.isspace` accepts.
unfoldable pub is_space : ℕ → Bool
is_space c =
    (leb 9 c && leb c 13)
    || (leb 28 c && leb c 32)
    || c == 0x85
    || c == 0xa0
    || c == 0x1680
    || (leb 0x2000 c && leb c 0x200a)
    || c == 0x2028
    || c == 0x2029
    || c == 0x202f
    || c == 0x205f
    || c == 0x3000

unfoldable pub strip_left : Text → Text
unfolding is_space
strip_left [] = []
strip_left (c ∷ s) = let rest = strip_left s in if is_space c then rest else c ∷ s

unfoldable pub strip : Text → Text
unfolding strip_left
strip s = reverse (strip_left (reverse (strip_left s)))

-- Each string once, where it stands first: `dict.fromkeys(xs)`, and `set(xs)` in that order.
unfoldable pub distinct : List Text → List Text
distinct [] = []
distinct (x ∷ xs) = x ∷ keep (λ y. not (y =? x)) (distinct xs)

-- `s.replace("-", "")`
unfoldable pub remove_code : ℕ → Text → Text
remove_code c s = keep (λ d. not (d == c)) s

-- `s.split(c)[-1]`: what stands behind the last `c`.
unfoldable pub after_last : ℕ → Text → Text
after_last c [] = []
after_last c (d ∷ s) =
    let rest = after_last c s in if mem c s then rest else if d == c then s else d ∷ s

pub lower_idem : (s : Text) → lower (lower s) ≡ lower s
unfolding lower
lower_idem [] = refl
lower_idem (c ∷ s) = ground (arith, lower_idem s)
