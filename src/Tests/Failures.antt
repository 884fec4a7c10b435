-- ===== src/Tests/Failures.antt =====
-- internal/engine/engine.go at concrete inputs: errors, saved rules, and two calls at once.
use port_forwarder.Base.{ℕ, ◌≤◌, ◌⊎◌, ◌≡◌, ◌≢◌, refl, some, [], ◌∷◌, arith, nat_eq}
use port_forwarder.Base.Int.{pos, max_int}
use port_forwarder.Base.Text.{codes, text_eq}
use port_forwarder.Base.Map.{lookup}
use port_forwarder.Base.Prog.{hangs, Ensures}
use port_forwarder.Engine.{error, Rule, remote_failed, Report, Engine, put_status}
use port_forwarder.Engine.Queries.{restart, update_remote_status}
use port_forwarder.Engine.Methods.{restore}
use port_forwarder.Engine.Soundness.{IsSound}
use port_forwarder.Engine.Reports.{report_error_hangs}
use port_forwarder.Engine.Refusing.{restart_refused}
use port_forwarder.Engine.RestoringAll.{AllBack, Stays, restore_all}
use port_forwarder.Engine.Racing.{Request, rule_of, add_at_once, add_at_once_lem}
use port_forwarder.Engine.Adding.{made_rule}
use port_forwarder.Tests.Engine.{
  everything, counting, counting-IsQuiet, web, start, start-IsSound, one_rule, far_rule,
}

abbrev refusal : Report
refusal = record { id = codes "1"; listen = []; err = some (remote_failed (codes "denied")) }

report_error_example : update_remote_status refusal far_rule ≡ hangs
unfolding everything far_rule
report_error_example = report_error_hangs far_rule refl refusal refl refl

-- A rule whose address is refused, as after an `Add` that failed.
abbrev ssh_rule : Rule
ssh_rule = made_rule (codes "local") (codes "ssh") (codes ":22") (codes "h:22") [] 1

refused_rule : Engine ℕ
unfolding start
refused_rule = record start { rules = (codes "1", put_status error ssh_rule) ∷ []; next_id = pos 2 }

restart_refused_example : restart refused_rule ≡ hangs
unfolding everything refused_rule
restart_refused_example =
    restart_refused refused_rule (codes "1") (put_status error ssh_rule) [] refl refl refl refl refl

restore_all_example :
    Ensures
      (λ _ e'.
        (m : ℕ) × IsSound m e'
        × ((m ≡ 1) ⊎ (m ≤ 2))
        × AllBack (web ∷ []) e'
        × Stays (web ∷ []) start e')
      (restore counting (some web ∷ []) start)
unfolding everything max_int
restore_all_example =
    restore_all counting (web ∷ []) counting-IsQuiet start-IsSound (omega arith)
      ((1, refl, omega arith, omega arith), refl, tt, tt)

-- `Restart` does return when the addresses can be bound again.
restart_returns : restart one_rule ≢ hangs
unfolding everything
restart_returns h = cc

abbrev web_request : Request
web_request = record {
  typ = codes "local";
  name = codes "web";
  listen = codes ":80";
  target = codes "h:8080";
  credential = [];
}

abbrev dns_request : Request
dns_request = record web_request { name = codes "dns"; listen = codes ":53" }

add_at_once_example :
    Ensures
      (λ rs e'.
        (rs.0.id ≡ rs.1.id)
        × (lookup rs.0.id e'.rules ≡ some (rule_of dns_request 1))
        × (e'.next_id ≡ pos 3))
      (add_at_once web_request dns_request start)
unfolding max_int
add_at_once_example = add_at_once_lem web_request dns_request start-IsSound (omega arith)
