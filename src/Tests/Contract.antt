-- ===== src/Tests/Contract.antt =====
-- Requests of the REST API (internal/api/api.go) at concrete inputs.
use port_forwarder.Base.{true, ℕ, refl, none, some, List, [], ◌∷◌, arith}
use port_forwarder.Base.Int.{max_int}
use port_forwarder.Base.Text.{codes}
use port_forwarder.Base.Prog.{Ensures}
use port_forwarder.Engine.Store.{load_rules}
use port_forwarder.Api.{RuleRequest, Server}
use port_forwarder.Api.Requests.{Request, get_rules, post_rule, put_rule, delete_rules, serve}
use port_forwarder.Api.Contract.{Desk, Trace}
use port_forwarder.Api.Contract.Keeping.{Keeps}
use port_forwarder.Api.Contract.Sessions.{serve-Trace}
use port_forwarder.Ssh.Credentials.{new_cred_store, empty_store}
use port_forwarder.Wiring.Lasting.{Lasts, serve-Lasts}
use port_forwarder.Tests.Manager.{agent_only, nets}
use port_forwarder.Tests.Engine.{willing, counting, counting-IsQuiet}
use port_forwarder.Tests.Refinement.{empty_table, empty, empty-Implements}
use port_forwarder.Tests.Store.{good_disk, rules_file}

abbrev pub new_desk : Desk
new_desk = record { table = empty_table; file = some (λ k. none) }

abbrev pub new_server : Server ℕ
new_server = record { engine = empty; rules = some rules_file }

pub new_server-Keeps : Keeps true new_desk new_server
unfolding load_rules
new_server-Keeps = record {
  implements = empty-Implements;
  store = rules_file;
  there = refl;
  steady = record { persistent = refl; trusty = (λ i. refl, λ i. refl) };
  in_file = record {
    out = [];
    numbered = tt;
    displays = record {
      ascending = tt;
      sound = tt;
      complete = λ k x absent. absurd (grind (arith, absent));
    };
    file = refl;
  };
}

abbrev web_request : RuleRequest
web_request = record {
  typ = codes "local";
  name = codes "web";
  listen = codes ":80";
  target = codes "h:8080";
  credential = [];
}

-- The second request is of a remote rule without a credential, and the last of a rule that is gone.
abbrev pub requests : List Request
requests =
    post_rule (some web_request)
    ∷ post_rule (some (record web_request { typ = codes "remote" }))
    ∷ put_rule (codes "1") (some (record web_request { name = codes "www" }))
    ∷ get_rules
    ∷ delete_rules (codes "1")
    ∷ delete_rules (codes "1")
    ∷ []

serve-Trace_example :
    Ensures
      (λ resps srv'. (d' : Desk) × Trace true requests new_desk resps d' × Keeps true d' srv')
      (serve counting requests new_server)
unfolding max_int
serve-Trace_example = serve-Trace counting counting-IsQuiet requests new_server-Keeps (omega arith)

-- The next daemon, on a network that takes every address.
serve-Lasts_example :
    Ensures
      (Lasts agent_only nets true true good_disk willing requests new_desk)
      (serve counting requests new_server)
unfolding max_int new_cred_store
serve-Lasts_example =
    serve-Lasts agent_only nets counting requests true good_disk
      (empty_store true (record good_disk { calls = 1 })) willing counting-IsQuiet new_server-Keeps
      (omega arith) refl
