-- ===== src/Tests/Accepting.antt =====
-- The accept loop of internal/engine/engine.go at concrete inputs.
use port_forwarder.Base.{ℕ, refl, [], ◌∷◌, nat_eq}
use port_forwarder.Base.Text.{codes, text_eq}
use port_forwarder.Base.Int.{pos}
use port_forwarder.Net.{Listener}
use port_forwarder.Engine.{stopped, Loop, Engine, new}
use port_forwarder.Engine.Accepting.{Worker, accepting, over, here, own, sees_stop}
use port_forwarder.Engine.Accepting.Stopping.{Ending, stop-run}
use port_forwarder.Tests.Engine.{willing, everything, web, one_rule, one_rule-IsSound}

abbrev web_ln : Listener
web_ln = record { handle = 0; addr = codes ":80" }

abbrev web_loop : Loop
web_loop = record { rule = codes "1"; ln = web_ln; stop_ch = 0 }

abbrev stopped_engine : Engine ℕ
stopped_engine = record (new willing) {
  rules = (codes "1", record web { status = stopped }) ∷ [];
  next_id = pos 2;
  net = record willing { calls = 1 };
  made = 1;
  closed = 0 ∷ [];
  loops = web_loop ∷ [];
}

-- It has handed over one connection before.
abbrev in_accept : Worker ℕ
in_accept = record { engine = stopped_engine; phase = accepting; handed = 7 ∷ []; reports = 0 }

stop-run_example : Ending web_loop 1 in_accept (record in_accept { phase = over })
unfolding everything new
stop-run_example =
    stop-run {e = one_rule} web_loop one_rule-IsSound.inv refl refl refl refl
      (own (sees_stop in_accept refl refl) (here (record in_accept { phase = over })))
