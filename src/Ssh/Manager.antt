-- ===== src/Ssh/Manager.antt =====
-- internal/ssh/manager.go: one SSH client for each credential that a remote rule names. The SSH
-- servers (`nets`) and what auth.go asks of the system (`sys`) are parameters. A method runs alone
-- here, so that no other client for the credential appears while one is made.
pub mod Serving
pub mod Adding
pub mod Removing
pub mod Backend
pub mod Forgetting
use port_forwarder.Base.{
  ℕ, suc, Bool, true, false, Option, none, some, List, [], ◌∷◌, ◌==◌, if◌then◌else◌,
}
use port_forwarder.Base.Text.{Text, text_eq}
use port_forwarder.Base.Map.{Map, lookup, insert, erase}
use port_forwarder.Net.{Net}
use port_forwarder.Net.HostPort.{normalize_host}
use port_forwarder.Engine.{Rule}
use port_forwarder.Ssh.Credentials
use port_forwarder.Ssh.Credentials.{Credential, CredStore, get, delete_credential, not_found}
use port_forwarder.Ssh.Client
use port_forwarder.Ssh.Client.{Client, ClientRule, new_client, set_on_rule, shutdown}
use port_forwarder.Ssh.Auth
use port_forwarder.Ssh.Auth.{System, Method, Result, ok, failed, credential_auth}

-- A context is named by a number; `contexts` is how many were made, `cancelled` are those that were
-- cancelled. `refused` are the rules that were reported because the credential is unavailable,
-- `gone` the clients that were shut down. What a client reports is kept with the client, whose
-- callback is the manager's.
pub record Manager : Type 0 where
  pub store : CredStore
  pub clients : Map Client
  pub cancel : Map ℕ
  pub by_rule : Map Text
  pub rules : Map Rule
  pub on_rule : Bool
  pub contexts : ℕ
  pub cancelled : List ℕ
  pub refused : List Text
  pub gone : List Client

-- `NewManager`
unfoldable pub new_manager : CredStore → Manager
new_manager store = record {
  store = store;
  clients = [];
  cancel = [];
  by_rule = [];
  rules = [];
  on_rule = false;
  contexts = 0;
  cancelled = [];
  refused = [];
  gone = [];
}

-- `SetOnRule`
abbrev pub set_callback : Manager → Manager
set_callback m = record m { on_rule = true }

-- The rule that `AddRemote` hands to the client.
abbrev pub client_rule : Rule → ClientRule
client_rule r = record { id = r.id; name = r.name; listen = r.listen; target = r.target }

abbrev pub edit_at : Text → (Client → Client) → Option Client → Manager → Manager
edit_at cred f none m = m
edit_at cred f (some cl) m = record m { clients = insert cred (f cl) m.clients }

-- A call of a method of the credential's client, if there is one.
abbrev pub edit_client : Text → (Client → Client) → Manager → Manager
edit_client cred f m = edit_at cred f (lookup cred m.clients) m

abbrev pub or_empty : Option Text → Text
or_empty none = []
or_empty (some t) = t

-- `RemoveRemote`
unfoldable pub remove_remote : Text → Manager → Manager
remove_remote id m =
    edit_client (or_empty (lookup id m.by_rule)) (Client.remove id)
      (record m { rules = erase id m.rules; by_rule = erase id m.by_rule })

-- The loop of `RemoveCredential`, over the entries of the map.
unfoldable pub drop_rules : Text → Map Rule → Manager → Manager
drop_rules cred [] m = m
drop_rules cred ((k, r) ∷ rs) m = drop_rules cred rs (
    if r.credential == cred
    then record m { rules = erase k m.rules; by_rule = erase k m.by_rule }
    else m)

abbrev pub cancel_context : Option ℕ → Manager → Manager
cancel_context none m = m
cancel_context (some c) m = record m { cancelled = c ∷ m.cancelled }

abbrev pub shut : Option Client → Manager → Manager
shut none m = m
shut (some cl) m = record m { gone = shutdown cl ∷ m.gone }

abbrev pub forget_credential :
    Text → Option Credential → Manager → Option Credentials.Error × Manager
forget_credential id none m = (some (not_found id), m)
forget_credential id (some c) m =
    let (err, store) = delete_credential id m.store in (err, record m { store = store })

-- `RemoveCredential`
unfoldable pub remove_credential : Text → Manager → Option Credentials.Error × Manager
unfolding drop_rules
remove_credential id m =
    let m1 = drop_rules id m.rules m in
    let m2 : Manager = record m1 { clients = erase id m1.clients; cancel = erase id m1.cancel } in
    let m3 = shut (lookup id m.clients) (cancel_context (lookup id m.cancel) m2) in
    forget_credential id (get id m3.store) m3

-- What `Probe` answers.
pub data ProbeResult : Type 0 where
  reached : ProbeResult
  unknown : Text → ProbeResult
  bad_auth : Auth.Error → ProbeResult
  ssh_failed : Text → ProbeResult

module _ {Signer : Type 0} (sys : System Signer) (nets : Text → Net) where
  abbrev pub start_client :
      Text → Credential → Result (List (Method Signer)) → Manager → Bool × Manager
  start_client cred c (failed x) m = (false, m)
  start_client cred c (ok methods) m =
      let addr = normalize_host c.host in
      (
        true,
        record m {
          clients = insert cred (set_on_rule (new_client addr (nets addr))) m.clients;
          cancel = insert cred m.contexts m.cancel;
          contexts = suc m.contexts;
        },
      )

  abbrev pub ensure_stored : Text → Option Credential → Manager → Bool × Manager
  ensure_stored cred none m = (false, m)
  ensure_stored cred (some c) m = start_client cred c (credential_auth sys (some c)) m

  abbrev pub ensure_found : Text → Option Client → Manager → Bool × Manager
  ensure_found cred (some cl) m = (true, m)
  ensure_found cred none m = ensure_stored cred (get cred m.store) m

  -- `ensureClient`: whether there is a client for the credential, in `clients`.
  unfoldable pub ensure_client : Text → Manager → Bool × Manager
  ensure_client cred m = ensure_found cred (lookup cred m.clients) m

  -- `AddRemote`
  unfoldable pub add_remote : Rule → Manager → Manager
  unfolding ensure_client
  add_remote r m =
      let (there, m') = ensure_client r.credential (record m {
        rules = insert r.id r m.rules;
        by_rule = insert r.id r.credential m.by_rule;
      }) in
      if there
      then edit_client r.credential (Client.add (client_rule r)) m'
      else record m' { refused = r.id ∷ m'.refused }

  abbrev pub probe_dial :
      (Text → Text → List (Method Signer) → Bool)
      → Credential
      → Result (List (Method Signer))
      → ProbeResult
  probe_dial dials c (failed x) = bad_auth x
  probe_dial dials c (ok methods) =
      if dials (normalize_host c.host) c.user methods then reached else ssh_failed c.host

  abbrev pub probe_found :
      (Text → Text → List (Method Signer) → Bool) → Text → Option Credential → ProbeResult
  probe_found dials id none = unknown id
  probe_found dials id (some c) = probe_dial dials c (credential_auth sys (some c))

  -- `Probe`, when `dials` says whether `ssh.Dial` succeeds.
  unfoldable pub probe : (Text → Text → List (Method Signer) → Bool) → Text → Manager → ProbeResult
  probe dials id m = probe_found dials id (get id m.store)
