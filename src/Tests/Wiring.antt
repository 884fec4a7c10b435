-- ===== src/Tests/Wiring.antt =====
-- internal/tunnel/client.go and main.go at concrete inputs.
use port_forwarder.Base.{◌≡◌, refl, true, some, [], ◌∷◌, arith, nat_eq, All}
use port_forwarder.Base.Int.{max_int}
use port_forwarder.Base.Text.{Text, codes, text_eq}
use port_forwarder.Base.Map.{lookup}
use port_forwarder.Base.Prog.{Ensures}
use port_forwarder.Net
use port_forwarder.Engine.{Engine, new}
use port_forwarder.Engine.Soundness.{new-IsSound, Inv-remote}
use port_forwarder.Engine.Refinement.{Implements, run}
use port_forwarder.Tunnel.Protocol.{Frame, empty_frame, frame_register}
use port_forwarder.Tunnel.Session.Listeners.{new_session}
use port_forwarder.Tunnel.Client
use port_forwarder.Tunnel.Client.{
  ClientRule, Client, new_client, connect, Runner, start, Step, Steps, connects, takes_snapshot,
  serves, adds, dial_fails, delay_ends, done, next, serving, second, grow,
}
use port_forwarder.Tunnel.Client.Served.{rule_at, serve_written, served_lem}
use port_forwarder.Tunnel.Client.Pacing.{IsPaced, delays-IsPaced}
use port_forwarder.Tunnel.Client.Opening.{Dials, handle_open}
use port_forwarder.Tunnel.Client.Meeting.{Met, asked, dial-handle_open}
use port_forwarder.Wiring.{ClientBackend, client_backend}
use port_forwarder.Engine.Mirroring.{Mirrored}
use port_forwarder.Wiring.Mirror.{client_keeper, client-Mirrors}
use port_forwarder.Wiring.Refused.{Blocked, refused_blocks}
use port_forwarder.Tests.Engine.{willing, everything, far_rule, far_rule-IsSound}
use port_forwarder.Tests.Refinement.{calls, empty_table}

abbrev here : Text
here = codes "10.0.0.1:7000"

abbrev web : ClientRule
web = record { id = codes "1"; name = codes "web"; listen = codes ":80"; target = codes "h:1" }

abbrev calm_client : Client
calm_client = record (new_client here) { on_rule = true }

abbrev served : Client
served = Client.add web (connect calm_client)

abbrev at_serve : Client → Runner
at_serve c = record { client = c; phase = serving; backoff = second; delays = [] }

-- The client connects without a rule, and then gets one.
serves_web : Steps true (start calm_client) (at_serve served)
unfolding start connect new_client
serves_web = next _ (connects calm_client second []) (
    next _ (takes_snapshot (connect calm_client) second []) (
      next _ (serves (connect calm_client) second [])
        (next _ (adds web (at_serve (connect calm_client)) (λ h. tt)) (done _))))

served_lem_example :
    rule_at (lookup (codes "1") (serve_written 0 served.sent (new_session here willing)).rules)
    ≡ lookup (codes "1") served.rules
unfolding connect Client.add new_client serve_written Net.listen Net.addr_in_use text_eq
served_lem_example =
    served_lem here true serves_web refl 0 refl (new_session here willing) refl
      ((λ same is. (_, refl)), tt) (codes "1")

-- Two dials fail.
abbrev tired : Runner
tired = record {
  client = calm_client;
  phase = Client.waiting;
  backoff = grow second;
  delays = grow second ∷ second ∷ [];
}

two_failures : Steps true (start calm_client) tired
unfolding start grow
two_failures = next _ (dial_fails calm_client second []) (
    next _ (delay_ends calm_client second (second ∷ []))
      (next _ (dial_fails calm_client (grow second) (second ∷ [])) (done _)))

delays-IsPaced_example : All IsPaced tired.delays
delays-IsPaced_example = delays-IsPaced calm_client two_failures

-- A machine that reaches every address.
abbrev idle : Dials
idle = record { answers = λ i a. true; calls = 4; open_conns = 3 ∷ []; lines = []; relays = [] }

abbrev data_ln : Net.Listener
data_ln = record { handle = 0; addr = codes ":0" }

dial-handle_open_example : Met (codes "1") 7 (new_session here willing) data_ln idle (
    handle_open true
      (asked (codes "1") 7 (new_session here willing) data_ln)
      ((codes "1", web) ∷ [])
      idle)
unfolding Net.listen Net.addr_in_use text_eq lookup
dial-handle_open_example =
    dial-handle_open (codes "1") 7 (new_session here willing) data_ln ((codes "1", web) ∷ []) idle
      refl refl refl refl (omega arith, tt)

abbrev ssh_rule : Frame
ssh_rule = record empty_frame { typ = frame_register; id = codes "1"; listen = codes ":22" }

refused_blocks_example : Blocked ssh_rule web (new_session here willing) served far_rule
unfolding Net.listen Client.add connect new_client everything far_rule
refused_blocks_example =
    refused_blocks ssh_rule (new_session here willing) served far_rule refl refl refl
      far_rule-IsSound.free refl

abbrev no_rules : ClientBackend
no_rules = record { client = new_client here; on_status = true }

abbrev daemon : Engine ClientBackend
daemon = record (new willing) { remote = some no_rules }

daemon-Implements : Implements empty_table daemon
unfolding new everything
daemon-Implements = record {
  sound = record { free = refl; inv = Inv-remote (some no_rules) (new-IsSound willing).inv };
  entries = λ k. tt;
}

client-Mirrors_example :
    Ensures (Mirrored client_keeper calls empty_table) (run client_backend calls daemon)
unfolding new max_int new_client lookup client_keeper
client-Mirrors_example =
    client-Mirrors calls daemon-Implements (omega arith) refl
      (record { good = tt; values = λ k. refl })
