-- ===== src/Wiring/Local.antt =====
-- main.go: `runLocal` and `runClient` once the flags are read, up to the web server, with
-- `serveAdminWeb`.
use port_forwarder.Base.{
  List, [], ◌∷◌, ◌==◌, ◌||◌, ◌≡◌, refl, ℕ, Bool, true, false, Option, none, some, if◌then◌else◌,
}
use port_forwarder.Base.Text.{Text, codes, text_eq}
use port_forwarder.Base.Prog.{Outcome, returns, panics, hangs, Prog, pure, ◌>>◌}
use port_forwarder.Net.{Net}
use port_forwarder.Files.Disk.{Disk}
use port_forwarder.Engine.{Engine, new, set_error_handler, set_remote_backend}
use port_forwarder.Engine.Store.{Store, Loaded, load_rules}
use port_forwarder.Engine.Store.Revival.{revive}
use port_forwarder.Ssh.Credentials.{Opened, failed, opened, new_cred_store}
use port_forwarder.Ssh.Auth.{System}
use port_forwarder.Ssh.Manager.{Manager, new_manager, set_callback}
use port_forwarder.Ssh.Manager.Backend.{manager_backend}
use port_forwarder.Tunnel.Client.{new_client, set_on_rule}
use port_forwarder.Engine.Queries.{is_empty}
use port_forwarder.Api.{Server, api_server, set_rule_store}
use port_forwarder.Wiring.{ClientBackend, normalize_addr}

-- What `main` runs, with the arguments that are left for it.
pub data Command : Type 0 where
  as_local as_server as_client : List Text → Command
  -- The usage is printed, and the process ends with the code 2.
  show_usage : Command

-- `main`, of the arguments behind the program's name.
unfoldable pub command : List Text → Command
command [] = as_local []
command (name ∷ args) =
    if name == codes "server"
    then as_server args
    else if name == codes "client"
    then as_client args
    else if name == codes "local" || name == codes "daemon"
    then as_local args
    else show_usage

command_runs :
    (command (codes "daemon" ∷ []) ≡ as_local []) × (command (codes "help" ∷ []) ≡ show_usage)
unfolding command text_eq
command_runs = (refl, refl)

-- The process has ended with a code, or it has come to the web server.
pub data Daemon (B : Type 0) : Type 0 where
  exited : ℕ → Daemon B
  serving : Outcome (Server B) (Unit {0}) → Daemon B

module _ {B : Type 0} where
  -- `serveAdminWeb`, up to the web server.
  abbrev pub attach : Outcome (Engine B) (Option Store) → Outcome (Server B) (Unit {0})
  attach (returns rules e) = returns tt (set_rule_store rules (api_server e))
  attach panics = panics
  attach hangs = hangs

-- The engine and the client of `runClient`. The client is not connected yet.
unfoldable pub equip_client : Text → Prog (Engine ClientBackend) (Option Store)
unfolding normalize_addr new_client
equip_client server = do
  set_remote_backend
      (record { client = set_on_rule (new_client (normalize_addr server)); on_status = true })
  set_error_handler
  pure none

abbrev pub started_client : Opened → Text → Net → Daemon ClientBackend
started_client (failed x) server net = exited 1
started_client (opened store) server net = serving (attach (equip_client server (new net)))

-- `runClient` once the flags are read. The store of credentials has no path; `creds` is what the
-- operating system has at the empty path.
unfoldable pub run_client : Text → Disk → Net → Daemon ClientBackend
unfolding equip_client new_cred_store
run_client server creds net =
    if is_empty server then exited 2 else started_client (new_cred_store false creds) server net

module _ {Signer : Type 0} (sys : System Signer) (nets : Text → Net) where
  abbrev pub reload : Loaded × Store → Prog (Engine Manager) (Option Store)
  reload (saved, rules) = do revive (manager_backend sys nets) saved; pure (some rules)

  unfoldable pub start_engine : Manager → Store → Prog (Engine Manager) (Option Store)
  unfolding load_rules
  start_engine mgr rules = do set_remote_backend mgr; set_error_handler; reload (load_rules rules)

  abbrev pub start_daemon : Opened → Store → Net → Daemon Manager
  start_daemon (failed x) rules net = exited 1
  start_daemon (opened store) rules net =
      serving (attach (start_engine (set_callback (new_manager store)) rules (new net)))

  -- The credentials file has a path if `persistent`, and is on the disk `creds`.
  unfoldable pub run_local : Bool → Disk → Store → Net → Daemon Manager
  unfolding start_engine
  run_local persistent creds rules net = start_daemon (new_cred_store persistent creds) rules net
