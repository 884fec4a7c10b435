-- ===== src/Tunnel/Protocol.antt =====
-- internal/tunnel/protocol.go: the control messages, and the handshake line of a data connection.
pub mod Laws
use port_forwarder.Base.{
  ℕ, zero, suc, ◌+◌, ◌≡◌, refl, Option, none, some, List, [], ◌∷◌, ◌++◌, length, ltb, if◌then◌else◌,
}
use port_forwarder.Base.Text.{Text, codes}
use port_forwarder.Decimal.{format, scan_uint}

pub record Frame : Type 0 where
  pub typ : Text
  pub id : Text
  pub name : Text
  pub listen : Text
  pub target : Text
  pub conn_id : ℕ
  pub message : Text

abbrev pub empty_frame : Frame
empty_frame = record {
  typ = [];
  id = [];
  name = [];
  listen = [];
  target = [];
  conn_id = 0;
  message = [];
}

unfoldable pub frame_register : Text
frame_register = codes "register"

unfoldable pub frame_registered : Text
frame_registered = codes "registered"

unfoldable pub frame_unregister : Text
frame_unregister = codes "unregister"

unfoldable pub frame_open : Text
frame_open = codes "open"

unfoldable pub frame_ping : Text
frame_ping = codes "ping"

unfoldable pub frame_pong : Text
frame_pong = codes "pong"

unfoldable pub frame_error : Text
frame_error = codes "error"

unfoldable pub data_prefix : Text
data_prefix = codes "DATA "

-- `line[k:]`
abbrev pub drop : ℕ → Text → Text
drop k [] = []
drop zero (c ∷ s) = c ∷ s
drop (suc k) (c ∷ s) = drop k s

-- `fmt.Sprintf("%s%d\n", dataPrefix, connID)`
unfoldable pub data_header : ℕ → Text
unfolding data_prefix
data_header conn_id = data_prefix ++ (format conn_id ++ (10 ∷ []))

-- `none` is the answer `(0, false)`.
unfoldable pub parse_data_header : Text → Option ℕ
unfolding data_prefix
parse_data_header line =
    if ltb (length line) (length data_prefix + 1)
    then none
    else scan_uint (drop (length data_prefix) line)
