-- ===== src/Tests/Server.antt =====
-- The server of internal/tunnel/server.go at concrete inputs.
use port_forwarder.Base.{refl, arith, [], ◌∷◌, nat_eq}
use port_forwarder.Base.Text.{codes, text_eq}
use port_forwarder.Net
use port_forwarder.Net.{Net, is_open}
use port_forwarder.Tunnel.Protocol.{Frame, empty_frame, frame_register}
use port_forwarder.Tunnel.Session.Ending.{received}
use port_forwarder.Tunnel.Server.{
  Server, fresh_server, new_server, accept_client, on_event, close, here, after, connects, happens,
}
use port_forwarder.Tunnel.Server.Closing.{Closed, close-Steps}
use port_forwarder.Tests.Engine.{willing}

abbrev started : Server
started =
    fresh_server (record { handle = 0; addr = codes ":7000" })
      (record willing { calls = 1; open_lns = record { handle = 0; addr = codes ":7000" } ∷ [] })

abbrev register_web : Frame
register_web = record empty_frame { typ = frame_register; id = codes "1"; listen = codes ":80" }

abbrev served : Server
served = on_event 0 (received register_web) (accept_client (codes "10.0.0.1:7000") started)

close-Steps_example : Closed willing (close served)
unfolding new_server accept_client Net.listen Net.addr_in_use is_open text_eq nat_eq
close-Steps_example = close-Steps (codes ":7000") willing {x = served} refl (
    after (connects (codes "10.0.0.1:7000") started refl) (
      after
        (happens 0 (received register_web) (accept_client (codes "10.0.0.1:7000") started)
          (omega arith) refl)
        (here served)))
