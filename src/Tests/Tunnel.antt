-- ===== src/Tests/Tunnel.antt =====
-- internal/tunnel at concrete inputs.
use port_forwarder.Base.{◌≡◌, refl, true, some, arith, ◌∷◌, nat_eq}
use port_forwarder.Base.Map.{lookup}
use port_forwarder.Net
use port_forwarder.Net.{Net, is_open}
use port_forwarder.Net.HostPort.{split_host_port, join_host_port, data_addr, IsPair, data_addr-join}
use port_forwarder.Tunnel.Session.{Session, Dial, register, finish, close}
use port_forwarder.Tunnel.Session.Listeners.{new_session}
use port_forwarder.Tunnel.Session.Ending.{close-register, finish-data_header}
use port_forwarder.Tests.Engine.{willing}
use port_forwarder.Base.Text.{Text, codes, text_eq}
use port_forwarder.Tunnel.Protocol.{Frame, empty_frame, frame_register, data_header}

control : Text
control = codes "10.0.0.1:7000"

web_frame : Frame
web_frame = record empty_frame { typ = frame_register; id = codes "1"; listen = codes ":80" }

over : Session
over = close (new_session control willing)

close-register_example : is_open 0 (close (register web_frame over)).net.open_lns ≡ true
unfolding over close web_frame frame_register text_eq nat_eq lookup Net.listen Net.addr_in_use
close-register_example = close-register web_frame over refl refl refl

abbrev a_dial : Dial
a_dial = record { conn_id = 3; pub_conn = 5; data_ln = record { handle = 1; addr = codes ":0" } }

finish-data_header_example :
    ((finish a_dial (some (data_header 4)) over).relayed ≡ over.relayed)
    × ((finish a_dial (some (data_header 4)) over).dropped ≡ 5 ∷ over.dropped)
    × ((finish a_dial (some (data_header 4)) over).pending ≡ over.pending)
unfolding nat_eq
finish-data_header_example = finish-data_header a_dial over 4 (omega arith)

loopback : IsPair (codes "::1") (codes "7000")
unfolding nat_eq
loopback = record {
  host_open = refl;
  host_close = refl;
  port_open = refl;
  port_close = refl;
  port_colon = refl;
}

any_address : IsPair (codes "::") (codes "40001")
unfolding nat_eq
any_address = record {
  host_open = refl;
  host_close = refl;
  port_open = refl;
  port_close = refl;
  port_colon = refl;
}

data_addr-join_example :
    (data_addr
        (join_host_port (codes "::1") (codes "7000"))
        (join_host_port (codes "::") (codes "40001"))
      ≡ join_host_port (codes "::1") (codes "40001"))
    × (split_host_port (join_host_port (codes "::1") (codes "40001"))
        ≡ some (codes "::1", codes "40001"))
data_addr-join_example =
    data_addr-join (codes "::1") (codes "7000") (codes "::") (codes "40001") loopback any_address
