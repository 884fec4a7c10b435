-- ===== src/Wiring/Refused.antt =====
-- main.go, internal/tunnel and internal/engine/engine.go: a public address that the server's
-- operating system refuses.
use port_forwarder.Base.{◌≡◌, refl, true, false, none, some, ◌∷◌}
use port_forwarder.Base.Text.{Text, text_eq}
use port_forwarder.Base.Map.{lookup}
use port_forwarder.Base.Prog.{hangs}
use port_forwarder.Net
use port_forwarder.Engine.{Rule, Engine}
use port_forwarder.Engine.Queries.{update_remote_status}
use port_forwarder.Engine.Reports.{report_error_hangs}
use port_forwarder.Tunnel.Protocol.{Frame, frame_open, frame_error}
use port_forwarder.Tunnel.Session.{Session, register, register_on, listen_error}
use port_forwarder.Tunnel.Client.{Client, ClientRule, RuleReport, handle, report_error}
use port_forwarder.Wiring.{as_report}

-- The report that the client makes of the server's frame.
abbrev pub failure : Text → ClientRule → RuleReport
failure id r = record { rule = r; err = some (listen_error id).message }

pub record Blocked (f : Frame) (r : ClientRule) (s : Session) (c : Client) {B : Type 0}
    (e : Engine B) : Type 0 where
  pub answer : (register f s).sent ≡ listen_error f.id ∷ s.sent
  pub report : (handle (listen_error f.id) c).reports ≡ failure f.id r ∷ c.reports
  pub blocks : update_remote_status (as_report (failure f.id r)) e ≡ hangs

module _ (f : Frame) (s : Session) (c : Client) {B : Type 0} (e : Engine B) where
  register-refused :
      (Net.listen f.listen s.net).0 ≡ none → (register f s).sent ≡ listen_error f.id ∷ s.sent
  unfolding register register_on
  register-refused refused = rw refused

  handle-refused :
      {r : ClientRule}
      → c.on_rule ≡ true
      → lookup f.id c.rules ≡ some r
      → (handle (listen_error f.id) c).reports ≡ failure f.id r ∷ c.reports
  unfolding handle report_error frame_open frame_error text_eq
  handle-refused on found = rw (found, on)

  -- When the operating system of the server refuses the address of a rule that a client registers,
  -- the server answers with an error frame, the client calls its callback with the rule and that
  -- error, and the callback, which is the engine's `UpdateRemoteStatus`, never returns, if the
  -- engine has the rule and its mutex is free.
  pub refused_blocks :
      {r : ClientRule} {x : Rule}
      → (Net.listen f.listen s.net).0 ≡ none
      → c.on_rule ≡ true
      → lookup f.id c.rules ≡ some r
      → e.held ≡ false
      → lookup r.id e.rules ≡ some x
      → Blocked f r s c e
  refused_blocks {r} refused on found free there = record {
    answer = register-refused refused;
    report = handle-refused on found;
    blocks = report_error_hangs e free (as_report (failure f.id r)) there refl;
  }
