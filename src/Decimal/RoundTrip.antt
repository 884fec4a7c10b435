-- ===== src/Decimal/RoundTrip.antt =====
-- Reading back what was printed.
use port_forwarder.Base.{
  ℕ, zero, suc, ◌+◌, ◌/◌, ◌%◌, ◌≤◌, ◌≡◌, ◌≢◌, refl, ap, ◌∙◌, sym, true, some, [], ◌∷◌, arith,
  nat_eq,
}
use port_forwarder.Base.Int.{pos, max_int}
use port_forwarder.Base.Text.{Text}
use port_forwarder.Decimal.{all_digits, value, emit, format, atoi}

value-emit : (f n : ℕ) (out : Text) → n ≤ f → value 0 (emit f n out) ≡ value n out
unfolding emit value
value-emit zero n out h = ground arith
value-emit (suc f) n out h = ground (arith, value-emit f (n / 10) ((b'0' + n % 10) ∷ out))

pub value-format : (n : ℕ) → value 0 (format n) ≡ n
unfolding format value
value-format n = ground (arith, value-emit n n [])

pub format_inj : (a b : ℕ) → format a ≡ format b → a ≡ b
format_inj a b h = sym (value-format a) ∙ ap (value 0) h ∙ value-format b

all_digits-emit : (f n : ℕ) (out : Text) → all_digits (emit f n out) ≡ all_digits out
unfolding emit
all_digits-emit zero n out = refl
all_digits-emit (suc f) n out = ground (arith, all_digits-emit f (n / 10) ((b'0' + n % 10) ∷ out))

pub all_digits-format : (n : ℕ) → all_digits (format n) ≡ true
unfolding format
all_digits-format n = ground (arith, all_digits-emit n n [])

emit-ne-nil : (f n c : ℕ) (out : Text) → emit f n (c ∷ out) ≢ []
unfolding emit
emit-ne-nil zero n c out = ground arith
emit-ne-nil (suc f) n c out = ground (arith, emit-ne-nil f (n / 10) (b'0' + n % 10) (c ∷ out))

pub format-ne-nil : (n : ℕ) → format n ≢ []
unfolding format
format-ne-nil zero = ground arith
format-ne-nil (suc n) = ground (arith, emit-ne-nil n (suc n / 10) (b'0' + suc n % 10) [])

atoi_of_digits :
    (s : Text)
    → s ≢ []
    → all_digits s ≡ true
    → value 0 s ≤ max_int
    → atoi s ≡ some (pos (value 0 s))
unfolding atoi
atoi_of_digits [] h d v = absurd (h refl)
atoi_of_digits (c ∷ s) h d v = ground arith

-- `strconv.Atoi` reads back what `fmt.Sprintf("%d")` prints of a number from 0 to the largest int.
pub atoi-format : (n : ℕ) → n ≤ max_int → atoi (format n) ≡ some (pos n)
atoi-format n h =
    rw (atoi_of_digits (format n) (format-ne-nil n) (all_digits-format n) (rw value-format h))
      (rw value-format)
