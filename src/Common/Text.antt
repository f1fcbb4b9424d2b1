-- ===== src/Common/Text.antt =====
-- Python's `str` as a list of code points, with what the program does with text.
use Prim.Native.Nat.{ℕ, suc, ◌+◌, ◌-◌}
use Prim.Native.Char.{code}
use Prim.Native.String.{String}
use mathlib.Core.Path.{◌≡◌, refl}
use mathlib.Core.Bool.{Bool, true, false, ◌&&◌, ◌||◌}
use mathlib.Core.Option.{Option, none, some}
use mathlib.Core.List.{List, [], ◌∷◌, ◌++◌, map}
use native.Mathlib.Omega.{arith}
use bridge_pay_backend.Common.Tests.{leb, ltb, ◌==◌, if◌then◌else◌}

abbrev pub Str : Type 0
Str = List ℕ

-- The code points of a literal.
abbrev pub codes : String → Str
codes String.[] = []
codes (String.◌∷◌ c s) = code c ∷ codes s

unfoldable pub str_eq : Str → Str → Bool
str_eq [] [] = true
str_eq (a ∷ s) (b ∷ t) = (a == b) && str_eq s t
str_eq _ _ = false

pub str_eq_refl : (s : Str) → str_eq s s ≡ true
unfolding str_eq
str_eq_refl [] = refl
str_eq_refl (a ∷ s) = ground (arith, str_eq_refl s)

pub eq_of_str_eq : (s t : Str) → str_eq s t ≡ true → s ≡ t
unfolding str_eq
eq_of_str_eq [] [] h = refl
eq_of_str_eq [] (b ∷ t) h = ground arith
eq_of_str_eq (a ∷ s) [] h = ground arith
eq_of_str_eq (a ∷ s) (b ∷ t) h = ground (arith, eq_of_str_eq s t)

-- `s.isascii()`
unfoldable pub is_ascii : Str → Bool
is_ascii [] = true
is_ascii (c ∷ s) = ltb c 128 && is_ascii s

-- `s in ts`
unfoldable pub contains : Str → List Str → Bool
contains s [] = false
contains s (t ∷ ts) = str_eq s t || contains s ts

-- A nullable text column compared with a text: NULL equals nothing.
abbrev pub is_text : Option Str → Str → Bool
is_text none s = false
is_text (some t) s = str_eq t s

-- `if s:` on a text that may be None.
abbrev pub is_given : Option Str → Bool
is_given none = false
is_given (some []) = false
is_given (some (c ∷ s)) = true

unfoldable pub upper_char : ℕ → ℕ
upper_char c = if leb b'a' c && leb c b'z' then c - 32 else c

-- `s.upper()`, on ASCII text
unfoldable pub upper : Str → Str
unfolding upper_char
upper s = map upper_char s

-- `s.lower()`, on ASCII text
unfoldable pub lower : Str → Str
lower s = map (λ c. if leb b'A' c && leb c b'Z' then c + 32 else c) s

pub upper_char_idem : (c : ℕ) → upper_char (upper_char c) ≡ upper_char c
unfolding upper_char
upper_char_idem c = ground arith

pub upper_idem : (s : Str) → upper (upper s) ≡ upper s
unfolding upper
upper_idem [] = refl
upper_idem (c ∷ s) = ground (arith, upper_char_idem c, upper_idem s)

abbrev pub length : Str → ℕ
length [] = 0
length (c ∷ s) = suc (length s)

-- `c.isspace()`
unfoldable pub is_space : ℕ → Bool
is_space c =
    (leb 9 c && leb c 13)
    || (leb 28 c && leb c 32)
    || (c == 133)
    || (c == 160)
    || (c == 5760)
    || (leb 8192 c && leb c 8202)
    || (c == 8232)
    || (c == 8233)
    || (c == 8239)
    || (c == 8287)
    || (c == 12288)

unfoldable pub left_stripped : Str → Str
left_stripped [] = []
left_stripped (c ∷ s) = let rest = left_stripped s in if is_space c then rest else c ∷ s

-- `c` in front of a text whose right end is stripped
abbrev pub cons_stripped : ℕ → Str → Str
cons_stripped c [] = if is_space c then [] else c ∷ []
cons_stripped c (d ∷ s) = c ∷ d ∷ s

unfoldable pub right_stripped : Str → Str
right_stripped [] = []
right_stripped (c ∷ s) = cons_stripped c (right_stripped s)

-- `s.strip()`
unfoldable pub stripped : Str → Str
unfolding left_stripped right_stripped
stripped s = right_stripped (left_stripped s)

-- `c` in front of the first piece of a split text
abbrev pub cons_piece : ℕ → List Str → List Str
cons_piece c [] = (c ∷ []) ∷ []
cons_piece c (p ∷ ps) = (c ∷ p) ∷ ps

-- `s.split(d)` at a character
unfoldable pub split : ℕ → Str → List Str
split d [] = [] ∷ []
split d (c ∷ s) = let rest = split d s in if c == d then [] ∷ rest else cons_piece c rest

-- `d.join(ts)`
unfoldable pub join : ℕ → List Str → Str
join d [] = []
join d (t ∷ []) = t
join d (t ∷ u ∷ us) = t ++ (d ∷ join d (u ∷ us))

-- `String(limit)` has no room for it.
abbrev pub too_long : ℕ → Str → Bool
too_long limit s = ltb limit (length s)
