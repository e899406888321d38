-- ===== src/Prelude/Text.antt =====
-- JavaScript strings as lists of UTF-16 code units: equality, `trim`, and case on ASCII letters.
use Prim.Native.Nat.{ℕ, ◌+◌, ◌-◌}
use Prim.Native.Char.{code}
use Prim.Native.String.{String}
use mathlib.Core.Path.{◌≡◌, refl}
use mathlib.Core.Logic.{◌↔◌}
use mathlib.Core.Bool.{Bool, true, false, ◌&&◌, ◌||◌}
use mathlib.Core.Option.{Option, none, some}
use mathlib.Core.List.{List, [], ◌∷◌, map, reverse}
use native.Mathlib.Omega.{arith}
use i_code_host_pro.Prelude.Tests.{leb, ◌==◌, if◌then◌else◌}

abbrev pub Text : Type 0
Text = List ℕ

-- A literal, as code units.
abbrev pub codes : String → Text
codes String.[] = []
codes (String.◌∷◌ c s) = code c ∷ codes s

-- `===` on strings.
unfoldable pub text_eq : Text → Text → Bool
text_eq [] [] = true
text_eq [] (b ∷ t) = false
text_eq (a ∷ s) [] = false
text_eq (a ∷ s) (b ∷ t) = (a == b) && text_eq s t

pub text_eq_iff : (s t : Text) → (text_eq s t ≡ true) ↔ (s ≡ t)
unfolding text_eq
text_eq_iff [] [] = ground arith
text_eq_iff [] (b ∷ t) = ground arith
text_eq_iff (a ∷ s) [] = ground arith
text_eq_iff (a ∷ s) (b ∷ t) = ground (arith, text_eq_iff s t)

pub text_eq_refl : (s : Text) → text_eq s s ≡ true
text_eq_refl s = (text_eq_iff s s).1 refl

-- `===` on strings that may be null.
abbrev pub opt_text_eq : Option Text → Option Text → Bool
opt_text_eq none none = true
opt_text_eq (some s) (some t) = text_eq s t
opt_text_eq _ _ = false

pub opt_text_eq_iff : (a b : Option Text) → (opt_text_eq a b ≡ true) ↔ (a ≡ b)
opt_text_eq_iff none none = ground arith
opt_text_eq_iff none (some b) = ground arith
opt_text_eq_iff (some a) none = ground arith
opt_text_eq_iff (some a) (some b) = ground (arith, text_eq_iff a b)

pub opt_text_eq_refl : (a : Option Text) → opt_text_eq a a ≡ true
opt_text_eq_refl a = (opt_text_eq_iff a a).1 refl

-- The white space and line terminators that `String.prototype.trim` removes.
unfoldable pub is_space : ℕ → Bool
is_space c =
    (leb 9 c && leb c 13)
    || c == 32
    || c == 160
    || c == 0x1680
    || (leb 0x2000 c && leb c 0x200a)
    || c == 0x2028
    || c == 0x2029
    || c == 0x202f
    || c == 0x205f
    || c == 0x3000
    || c == 0xfeff

unfoldable pub trim_start : Text → Text
unfolding is_space
trim_start [] = []
trim_start (c ∷ s) = if is_space c then trim_start s else c ∷ s

unfoldable pub trim : Text → Text
unfolding trim_start
trim s = reverse (trim_start (reverse (trim_start s)))

abbrev pub is_upper : ℕ → Bool
is_upper c = leb b'A' c && leb c b'Z'

abbrev pub is_lower : ℕ → Bool
is_lower c = leb b'a' c && leb c b'z'

abbrev pub is_digit : ℕ → Bool
is_digit c = leb b'0' c && leb c b'9'

unfoldable pub upper : ℕ → ℕ
upper c = if is_lower c then c - 32 else c

unfoldable pub lower : ℕ → ℕ
lower c = if is_upper c then c + 32 else c

-- `toUpperCase` and `toLowerCase`, on the letters of ASCII.
unfoldable pub to_upper_case : Text → Text
unfolding upper
to_upper_case = map upper

unfoldable pub to_lower_case : Text → Text
unfolding lower
to_lower_case = map lower

abbrev pub is_empty : Text → Bool
is_empty [] = true
is_empty (_ ∷ _) = false
