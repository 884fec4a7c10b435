-- ===== src/Ssh/Credentials/Names.antt =====
-- internal/ssh/credentials.go: the IDs that `Add` makes, and the numbers that are read from IDs.
use port_forwarder.Base.{ℕ, ◌≤◌, ◌≡◌, ◌≢◌, refl, true, some, [], ◌∷◌, ◌++◌, arith, nat_eq}
use port_forwarder.Base.Int.{pos, max_int}
use port_forwarder.Base.Text.{Text}
use port_forwarder.Decimal.{all_digits, value, format, format_int, scan_int}
use port_forwarder.Decimal.RoundTrip.{value-format, all_digits-format, format-ne-nil}
use port_forwarder.Ssh.Credentials.{strip, atoi_name, cred_name}

scan_int_of_digits :
    (s : Text)
    → s ≢ []
    → all_digits s ≡ true
    → value 0 s ≤ max_int
    → scan_int s ≡ some (pos (value 0 s))
unfolding scan_int
scan_int_of_digits [] h d v = absurd (h refl)
scan_int_of_digits (c ∷ s) h d v = ground arith

pub scan_int-format : (n : ℕ) → n ≤ max_int → scan_int (format n) ≡ some (pos n)
scan_int-format n h =
    rw (scan_int_of_digits (format n) (format-ne-nil n) (all_digits-format n) (rw value-format h))
      (rw value-format)

strip-append : (p s : Text) → strip p (p ++ s) ≡ some s
unfolding strip
strip-append [] s = refl
strip-append (c ∷ p) s = ground (arith, strip-append p s)

-- The number of a credential's ID is read back.
pub atoi_name-cred_name : (n : ℕ) → n ≤ max_int → atoi_name (cred_name (pos n)) ≡ pos n
unfolding atoi_name cred_name format_int
atoi_name-cred_name n h = rw strip-append (rw (scan_int-format n h))
