-- ===== src/Wiring.antt =====
-- main.go: what joins the parts. `runClient` makes the tunnel's client the backend of the engine;
-- `runLocal` makes the SSH manager the backend.
pub mod Refused
pub mod Mirror
pub mod Local
pub mod Returning
pub mod Lasting
pub mod Reviving
use port_forwarder.Base.{
  nat_eq, true, false, ◌≡◌, refl, All, Bool, Option, none, some, List, [], ◌∷◌, ◌++◌, if◌then◌else◌,
}
use port_forwarder.Base.Text.{Text, codes}
use port_forwarder.Net.HostPort.{split_host_port}
use port_forwarder.Engine.{Rule, Error, remote_failed, Report, RemoteBackend}
use port_forwarder.Engine.Reports.{IsQuiet, IsGood}
use port_forwarder.Tunnel.Client
use port_forwarder.Tunnel.Client.{Client, ClientRule, RuleReport}

abbrev or_port : Text → Option (Text × Text) → Text
or_port addr none = b':' ∷ addr
or_port addr (some _) = addr

-- `normalizeAddr`
unfoldable pub normalize_addr : Text → Text
unfolding split_host_port
normalize_addr [] = codes ":7000"
normalize_addr (c ∷ addr) = or_port (c ∷ addr) (split_host_port (c ∷ addr))

runs :
    (normalize_addr (codes "9000") ≡ codes ":9000")
    × (normalize_addr (codes "h:9000") ≡ codes "h:9000")
    × (normalize_addr (codes "h") ≡ codes ":h")
unfolding normalize_addr nat_eq
runs = (refl, refl, refl)

-- `on_status`: the callback is not nil.
pub record ClientBackend : Type 0 where
  pub client : Client
  pub on_status : Bool

-- The rule that `AddRemote` makes of an engine's.
abbrev pub tunnel_rule : Rule → ClientRule
tunnel_rule r = record { id = r.id; name = r.name; listen = r.listen; target = r.target }

abbrev pub success : Text → Report
success id = record { id = id; listen = []; err = none }

-- `AddRemote` of `clientBackend`: the engine is told of success at once.
unfoldable pub add_remote : Rule → ClientBackend → ClientBackend × List Report
add_remote r b = (
  record b { client = Client.add (tunnel_rule r) b.client },
  if b.on_status then success r.id ∷ [] else [],
)

-- `RemoveRemote` of `clientBackend`
unfoldable pub remove_remote : Text → ClientBackend → ClientBackend × List Report
remove_remote id b = (record b { client = Client.remove id b.client }, [])

abbrev pub client_backend : RemoteBackend ClientBackend
client_backend = record { add_remote = add_remote; remove_remote = remove_remote }

abbrev as_error : Option Text → Option Error
as_error none = none
as_error (some message) = some (remote_failed message)

-- The callback that `runClient` gives to the client: the report that the engine gets.
abbrev pub as_report : RuleReport → Report
as_report rep = record { id = rep.rule.id; listen = rep.rule.listen; err = as_error rep.err }

success-IsGood : (b : Bool) (id : Text) → All (IsGood id) (if b then success id ∷ [] else [])
success-IsGood true id = ((refl, refl), tt)
success-IsGood false id = tt

-- The engine may rely on the tunnel's client as on any quiet backend.
pub client_backend-IsQuiet : IsQuiet client_backend
unfolding add_remote remove_remote
client_backend-IsQuiet = record {
  add_good = λ r b. success-IsGood b.on_status r.id;
  remove_silent = λ id b. refl;
}
