-- ===== src/Decimal.antt =====
-- Decimal numbers as the program prints and reads them: `fmt.Sprintf("%d")`, `strconv.Atoi`, and
-- the verb `%d` of `fmt.Sscanf` (white space is the ASCII one).
pub mod RoundTrip
use port_forwarder.Base.{
  ℕ, zero, suc, ◌+◌, ◌-◌, ◌*◌, ◌/◌, ◌%◌, ◌^◌, ◌≡◌, refl, Bool, true, false, ◌&&◌, ◌||◌, Option,
  none, some, [], ◌∷◌, leb, ltb, ◌==◌, nat_eq, if◌then◌else◌,
}
use port_forwarder.Base.Int.{ℤ, pos, negsuc, max_int}
use port_forwarder.Base.Text.{Text, codes}

abbrev pub max_u64 : ℕ
max_u64 = 2 ^ 64 - 1

abbrev pub is_digit : ℕ → Bool
is_digit c = leb b'0' c && leb c b'9'

abbrev pub all_digits : Text → Bool
all_digits [] = true
all_digits (c ∷ s) = is_digit c && all_digits s

-- The number that the digits at the front of a text spell behind `n`.
unfoldable pub value : ℕ → Text → ℕ
value n [] = n
value n (c ∷ s) = let rest = value (n * 10 + (c - b'0')) s in if is_digit c then rest else n

-- The digits of `n` in front of `out`; the fuel is at least `n`.
unfoldable pub emit : ℕ → ℕ → Text → Text
emit zero n out = out
emit (suc f) n out =
    let rest = emit f (n / 10) ((b'0' + n % 10) ∷ out) in if n == 0 then out else rest

-- `fmt.Sprintf("%d", n)` for an unsigned number.
unfoldable pub format : ℕ → Text
unfolding emit
format n = if n == 0 then b'0' ∷ [] else emit n n []

-- `fmt.Sprintf("%d", i)` for an int.
unfoldable pub format_int : ℤ → Text
unfolding format
format_int (pos n) = format n
format_int (negsuc n) = b'-' ∷ format (suc n)

-- One or more digits, the largest number that fits being `limit`.
unfoldable pub unsigned : ℕ → Text → Option ℕ
unfolding value
unsigned limit [] = none
unsigned limit (c ∷ s) =
    if all_digits (c ∷ s) && leb (value 0 (c ∷ s)) limit then some (value 0 (c ∷ s)) else none

abbrev pub as_pos : Option ℕ → Option ℤ
as_pos none = none
as_pos (some n) = some (pos n)

abbrev pub as_neg : Option ℕ → Option ℤ
as_neg none = none
as_neg (some zero) = some (pos zero)
as_neg (some (suc n)) = some (negsuc n)

-- `strconv.Atoi`
unfoldable pub atoi : Text → Option ℤ
unfolding unsigned max_int
atoi [] = none
atoi (c ∷ s) =
    if c == b'-'
    then as_neg (unsigned (suc max_int) s)
    else if c == b'+'
    then as_pos (unsigned max_int s)
    else as_pos (unsigned max_int (c ∷ s))

abbrev pub is_space : ℕ → Bool
is_space c = c == 32 || c == 9 || c == 11 || c == 12 || c == 13

-- `SkipSpace` of a scanner; `none` at a newline, which `Sscanf` does not skip.
unfoldable pub skip_space : Text → Option Text
skip_space [] = some []
skip_space (c ∷ s) =
    let rest = skip_space s in if c == 10 then none else if is_space c then rest else some (c ∷ s)

-- The digits at the front of a text, at least one; what follows them is not read.
unfoldable pub scan_number : ℕ → Text → Option ℕ
unfolding value
scan_number limit [] = none
scan_number limit (c ∷ s) =
    if is_digit c && leb (value 0 (c ∷ s)) limit then some (value 0 (c ∷ s)) else none

unfoldable pub scan_uint_after : Option Text → Option ℕ
unfolding scan_number
scan_uint_after none = none
scan_uint_after (some s) = scan_number max_u64 s

-- `fmt.Sscanf(s, "%d", &id)` with an `id` of type uint64.
unfoldable pub scan_uint : Text → Option ℕ
unfolding scan_uint_after skip_space
scan_uint s = scan_uint_after (skip_space s)

unfoldable pub scan_int_after : Option Text → Option ℤ
unfolding scan_number max_int
scan_int_after none = none
scan_int_after (some []) = none
scan_int_after (some (c ∷ s)) =
    if c == b'-'
    then as_neg (scan_number (suc max_int) s)
    else if c == b'+'
    then as_pos (scan_number max_int s)
    else as_pos (scan_number max_int (c ∷ s))

-- `fmt.Sscanf(s, "%d", &n)` with an `n` of type int.
unfoldable pub scan_int : Text → Option ℤ
unfolding scan_int_after skip_space
scan_int s = scan_int_after (skip_space s)

runs :
    (format 7000 ≡ codes "7000")
    × (atoi (codes "-12") ≡ some (negsuc 11))
    × (atoi (codes "12x") ≡ none)
    × (scan_uint (codes " 42\n") ≡ some 42)
    × (scan_int (codes "+7x") ≡ some (pos 7))
unfolding format atoi scan_uint scan_int nat_eq
runs = (refl, refl, refl, refl, refl)
