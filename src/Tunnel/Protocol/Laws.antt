-- ===== src/Tunnel/Protocol/Laws.antt =====
-- internal/tunnel/protocol.go: what `parseDataHeader` makes of a line.
use port_forwarder.Base.{
  ℕ, ◌+◌, ◌-◌, ◌*◌, ◌≤◌, ◌≡◌, ◌≢◌, refl, ◌∙◌, ap, true, false, some, [], ◌∷◌, ◌++◌, arith, length,
  length-append, nat_eq,
}
use port_forwarder.Base.Text.{Text}
use port_forwarder.Decimal.{is_digit, all_digits, value, format, scan_uint, max_u64}
use port_forwarder.Decimal.RoundTrip.{value-format, all_digits-format, format-ne-nil}
use port_forwarder.Tunnel.Protocol.{data_prefix, data_header, parse_data_header, drop}

-- What follows the digits is not read.
value-append :
    (s : Text) (n c : ℕ) (rest : Text)
    → all_digits s ≡ true
    → is_digit c ≡ false
    → value n (s ++ c ∷ rest) ≡ value n s
unfolding value
value-append [] n c rest h d = ground arith
value-append (b ∷ s) n c rest h d = ground (arith, value-append s (n * 10 + (b - b'0')) c rest)

scan_uint_of_digits :
    (s : Text) (c : ℕ) (rest : Text)
    → s ≢ []
    → all_digits s ≡ true
    → is_digit c ≡ false
    → value 0 s ≤ max_u64
    → scan_uint (s ++ c ∷ rest) ≡ some (value 0 s)
unfolding scan_uint
scan_uint_of_digits [] c rest h all_d d v = absurd (h refl)
scan_uint_of_digits (b ∷ s) c rest h all_d d v =
    ground (arith, value-append (b ∷ s) 0 c rest all_d d)

drop-append : (s t : Text) → drop (length s) (s ++ t) ≡ t
drop-append [] [] = refl
drop-append [] (c ∷ t) = refl
drop-append (c ∷ s) t = drop-append s t

-- `parseDataHeader` of any five bytes with something behind them is what the scanner reads of the
-- part behind them: that the five bytes are `DATA ` is not checked.
parse_any_prefix :
    (p rest : Text)
    → length p ≡ length data_prefix
    → rest ≢ []
    → parse_data_header (p ++ rest) ≡ scan_uint rest
unfolding parse_data_header
parse_any_prefix p [] h n = absurd (n refl)
parse_any_prefix p (c ∷ rest) h n =
    rw (← h) (ground (arith, length-append p (c ∷ rest), drop-append p (c ∷ rest)))

append-ne-nil : (s : Text) (c : ℕ) (t : Text) → s ++ c ∷ t ≢ []
append-ne-nil [] c t = ground arith
append-ne-nil (b ∷ s) c t = ground arith

-- `parseDataHeader` reads the connection ID back from the line that `dataHeader` makes of it, for
-- every ID that a uint64 can hold.
pub parse-data_header :
    (conn_id : ℕ) → conn_id ≤ max_u64 → parse_data_header (data_header conn_id) ≡ some conn_id
unfolding data_header
parse-data_header conn_id h =
    parse_any_prefix data_prefix (format conn_id ++ 10 ∷ []) refl
      (append-ne-nil (format conn_id) 10 [])
    ∙ scan_uint_of_digits (format conn_id) 10 [] (format-ne-nil conn_id) (all_digits-format conn_id)
        refl (rw value-format h)
    ∙ ap some (value-format conn_id)
