-- ===== src/Api/Requests.antt =====
-- internal/api/api.go: `Handler`, as far as the requests go that list, make, change and delete rules.
use port_forwarder.Base.{Option, List, [], ◌∷◌}
use port_forwarder.Base.Text.{Text}
use port_forwarder.Base.Prog.{Prog, pure, ◌>>=◌}
use port_forwarder.Engine.{RemoteBackend}
use port_forwarder.Api.{
  RuleRequest, Response, Server, list_rules, create_rule, update_rule, delete_rule,
}

-- A request with its method and its path, what is in the path for `{id}`, and what the decoder made
-- of the body.
pub data Request : Type 0 where
  get_rules : Request
  post_rule : Option RuleRequest → Request
  put_rule : Text → Option RuleRequest → Request
  delete_rules : Text → Request

module _ {B : Type 0} (be : RemoteBackend B) where
  -- The route of a request.
  unfoldable pub handle : Request → Prog (Server B) Response
  handle get_rules = list_rules
  handle (post_rule q) = create_rule be q
  handle (put_rule id q) = update_rule be id q
  handle (delete_rules id) = delete_rule be id

  -- Requests one after the other.
  unfoldable pub serve : List Request → Prog (Server B) (List Response)
  unfolding handle
  serve [] = pure []
  serve (q ∷ qs) = do resp ← handle q; resps ← serve qs; pure (resp ∷ resps)
