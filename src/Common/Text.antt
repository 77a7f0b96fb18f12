-- ===== src/Common/Text.antt =====
-- Text as a list of bytes: comparison, search for a byte, lines, decimal numbers.
use Prim.Native.Nat.{ℕ, zero, suc, ◌+◌, ◌-◌, ◌*◌, ◌/◌, ◌%◌, ◌^◌}
use Prim.Native.Char.{code}
use Prim.Native.String.{String}
use mathlib.Core.Path.{◌≡◌, refl}
use mathlib.Core.Bool.{Bool, true, false, ◌&&◌, ◌||◌}
use mathlib.Core.Logic.{◌↔◌}
use mathlib.Core.Option.{Option, none, some}
use mathlib.Core.List.{List, [], ◌∷◌, ◌++◌}
use native.Mathlib.Omega.{arith}
use java_io_tserver.Common.Tests.{ltb, leb, ◌==◌, if◌then◌else◌}
use java_io_tserver.Common.Int.{ℤ, pos, negsuc, sub_ℕ}

abbrev pub Bytes : Type 0
Bytes = List ℕ

-- The code points of a text: its bytes, as every literal is ASCII.
abbrev pub codes : String → Bytes
codes String.[] = []
codes (String.◌∷◌ c s) = code c ∷ codes s

-- Whether two texts are the same (`==`, `strcmp` against 0).
unfoldable pub equal : Bytes → Bytes → Bool
equal [] [] = true
equal (x ∷ xs) (y ∷ ys) = x == y && equal xs ys
equal _ _ = false

pub equal_iff : (s t : Bytes) → (equal s t ≡ true) ↔ (s ≡ t)
unfolding equal
equal_iff [] [] = ground arith
equal_iff [] (y ∷ t) = ground arith
equal_iff (x ∷ s) [] = ground arith
equal_iff (x ∷ s) (y ∷ t) = let tails = equal_iff s t in ground (arith, tails)

pub equal_refl : (a : Bytes) → equal a a ≡ true
equal_refl a = (equal_iff a a).1 refl

-- The text before the first byte `c` and the text behind it; `none` where `c` does not occur.
unfoldable pub break_at : ℕ → Bytes → Option (Bytes × Bytes)
break_at c [] = none
break_at c (x ∷ xs) =
    if x == c
    then some ([], xs)
    else elim (break_at c xs) [ none ↦ none | some (a, b) ↦ some (x ∷ a, b) ]

-- The byte `c` does not occur.
unfoldable pub lacks : ℕ → Bytes → Bool
lacks c [] = true
lacks c (x ∷ xs) = elim (x == c) [ true ↦ false | false ↦ lacks c xs ]

pub break_at-append :
    (c : ℕ) (a b : Bytes) → lacks c a ≡ true → break_at c (a ++ c ∷ b) ≡ some (a, b)
unfolding break_at lacks
break_at-append c [] b h = ground arith
break_at-append c (x ∷ a) b h = ground (arith, break_at-append c a b)

-- `std::getline` until the end: a last line with no line feed counts if it is not empty.
unfoldable pub lines_from : Bytes → Bytes → List Bytes
lines_from [] [] = []
lines_from (l ∷ ls) [] = (l ∷ ls) ∷ []
lines_from acc (c ∷ cs) = elim (c == b'\n') [
  | true ↦ acc ∷ lines_from [] cs
  | false ↦ lines_from (acc ++ c ∷ []) cs
]

abbrev pub lines : Bytes → List Bytes
lines = lines_from []

-- `isspace` in the "C" locale.
unfoldable pub is_space : ℕ → Bool
is_space c = c == b' ' || (leb 9 c && leb c 13)

unfoldable pub skip_space : Bytes → Bytes
skip_space [] = []
skip_space (c ∷ cs) = let rest = skip_space cs in if is_space c then rest else c ∷ cs

unfoldable pub is_digit : ℕ → Bool
is_digit c = leb b'0' c && leb c b'9'

-- The value of the digits at the front, on top of `acc`.
unfoldable pub digits_value : ℕ → Bytes → ℕ
digits_value acc [] = acc
digits_value acc (c ∷ cs) = elim (is_digit c) [
  | true ↦ digits_value (acc * 10 + (c - b'0')) cs
  | false ↦ acc
]

signed_value : Bytes → ℤ
signed_value [] = pos 0
signed_value (c ∷ cs) =
    if c == b'-'
    then sub_ℕ 0 (digits_value 0 cs)
    else if c == b'+'
    then pos (digits_value 0 cs)
    else pos (digits_value 0 (c ∷ cs))

-- `atoi`: white space, a sign, digits. A value that does not fit `int` is undefined in C; here it
-- is the number itself.
unfoldable pub atoi : Bytes → ℤ
unfolding skip_space is_space digits_value is_digit signed_value
atoi s = signed_value (skip_space s)

-- The cast of an `int` to `uint32_t`.
abbrev pub to_u32 : ℤ → ℕ
to_u32 (pos n) = n % 2 ^ 32
to_u32 (negsuc n) = (2 ^ 32 - 1) - n % 2 ^ 32

atoi_runs : atoi (codes " -12x") ≡ negsuc 11
unfolding atoi
atoi_runs = refl

lines_runs : lines (codes "ab\n\nc") ≡ codes "ab" ∷ [] ∷ codes "c" ∷ []
unfolding lines_from
lines_runs = refl

pub break_at_absent : (c : ℕ) (a : Bytes) → lacks c a ≡ true → break_at c a ≡ none
unfolding break_at lacks
break_at_absent c [] h = refl
break_at_absent c (x ∷ a) h = ground (arith, break_at_absent c a)

-- The decimal digits of a number. It has no more digits than it counts, so it is fuel enough.
unfoldable pub decimal_fuel : ℕ → ℕ → Bytes
decimal_fuel zero n = (n + b'0') ∷ []
decimal_fuel (suc fuel) n = elim (ltb n 10) [
  | true ↦ (n + b'0') ∷ []
  | false ↦ decimal_fuel fuel (n / 10) ++ (n % 10 + b'0') ∷ []
]

abbrev pub decimal : ℕ → Bytes
decimal n = decimal_fuel n n

-- `std::to_string` and `%d`.
unfoldable pub to_string : ℤ → Bytes
to_string (pos n) = decimal n
to_string (negsuc n) = b'-' ∷ decimal (suc n)
