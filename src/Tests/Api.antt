-- ===== src/Tests/Api.antt =====
-- internal/api/api.go at concrete inputs.
use port_forwarder.Base.{ℕ, refl, some, arith, []}
use port_forwarder.Base.Int.{max_int}
use port_forwarder.Base.Text.{codes, text_eq}
use port_forwarder.Base.Map.{lookup}
use port_forwarder.Base.Prog.{Ensures}
use port_forwarder.Decimal.{format}
use port_forwarder.Engine.{rule_type_remote}
use port_forwarder.Engine.Adding.{made_rule}
use port_forwarder.Api.{RuleRequest, Server, create_rule, update_rule}
use port_forwarder.Api.Saving.{IsWorking}
use port_forwarder.Api.Rules.{Created, ChangedRule, create_rule_lem, update_rule_lem}
use port_forwarder.Tests.Engine.{counting, one_rule, one_rule-IsSound, web}
use port_forwarder.Tests.Store.{rules_file}

abbrev server : Server ℕ
server = record { engine = one_rule; rules = some rules_file }

works : IsWorking rules_file
works = record { persistent = refl; can_mkdir = refl; writes = refl }

-- An address that the operating system refuses.
abbrev ssh_request : RuleRequest
ssh_request = record {
  typ = codes "local";
  name = codes "ssh";
  listen = codes ":22";
  target = codes "h:22";
  credential = [];
}

create_rule_lem_example :
    Ensures
      (λ resp srv'.
        Created 2
          (made_rule (codes "local") (codes "ssh") (codes ":22") (codes "h:22") [] 2)
          server
          resp
          srv')
      (create_rule counting (some ssh_request) server)
unfolding max_int rule_type_remote text_eq
create_rule_lem_example =
    create_rule_lem counting rules_file works server ssh_request one_rule-IsSound (omega arith) refl
      refl

update_rule_lem_example :
    Ensures
      (λ resp srv'. ChangedRule 2 (codes "1") ssh_request web server resp srv')
      (update_rule counting (codes "1") (some ssh_request) server)
unfolding max_int rule_type_remote text_eq one_rule lookup format
update_rule_lem_example =
    update_rule_lem counting rules_file works server (codes "1") ssh_request one_rule-IsSound
      (omega arith) refl refl refl
