-- ===== src/Wiring/Returning.antt =====
-- main.go: the daemon that `runLocal` starts keeps what the API promises of the rules in the file.
use port_forwarder.Base.{ℕ, true, ◌<◌, ◌≤◌, ◌≡◌, refl, ap, Bool, Option, none, some}
use port_forwarder.Base.Int.{max_int}
use port_forwarder.Base.Text.{Text}
use port_forwarder.Base.Map.{lookup, lookup-nil}
use port_forwarder.Base.Prog.{Outcome, Ensures, returned, Ensures-bind, Ensures-eq}
use port_forwarder.Net.{Net}
use port_forwarder.Files.Disk.{Disk, read_file}
use port_forwarder.Engine.{Rule, Engine, new, lock, unlock, set_error_handler, set_remote_backend}
use port_forwarder.Engine.Soundness.{IsSound, new-IsSound}
use port_forwarder.Engine.Table.{Entry}
use port_forwarder.Engine.Store.{Store, load_rules}
use port_forwarder.Engine.Store.Saved.{readable}
use port_forwarder.Engine.Store.Revival.{revive}
use port_forwarder.Ssh.Auth.{System}
use port_forwarder.Ssh.Credentials.{CredStore, opened, new_cred_store}
use port_forwarder.Ssh.Manager.{Manager, new_manager, set_callback}
use port_forwarder.Ssh.Manager.Backend.{manager_backend, manager_backend-IsQuiet}
use port_forwarder.Api.{Server}
use port_forwarder.Api.Contract.Saving.{IsSteady, InFile, IsTrusty-same}
use port_forwarder.Api.Contract.Keeping.{Keeps}
use port_forwarder.Wiring.Reviving.{revive-Implements}
use port_forwarder.Wiring.Local.{Daemon, exited, serving, attach, reload, start_engine, run_local}

-- The daemon has come to its web server, with a server like that.
abbrev pub Serves : (Server Manager → Type 0) → Daemon Manager → Type 0
Serves P (exited c) = ⊥
Serves P (serving o) = Ensures (λ _ srv. P srv) o

attach-Ensures :
    {P : Server Manager → Type 0} {o : Outcome (Engine Manager) (Option Store)}
    → Ensures (λ rules e. P (record { engine = e; rules = rules })) o
    → Ensures (λ _ srv. P srv) (attach o)
attach-Ensures (returned rules e p) = returned _ _ p

abbrev equipped : Manager → Net → Engine Manager
equipped mgr net = record (new net) { remote = some mgr; on_error = true }

equipped-IsSound : (mgr : Manager) (net : Net) → IsSound 1 (equipped mgr net)
unfolding new
equipped-IsSound mgr net = record {
  free = refl;
  inv = record {
    numbering = (new-IsSound {B = Manager} net).inv.numbering;
    sockets = (new-IsSound {B = Manager} net).inv.sockets;
    registry = (new-IsSound {B = Manager} net).inv.registry;
  };
}

read-IsSteady :
    (good : Bool) (s : Store) → IsSteady good s → IsSteady good (load_rules (readable s)).1
unfolding load_rules read_file
read-IsSteady good s steady = record {
  persistent = steady.persistent;
  trusty = IsTrusty-same good s.disk _ refl refl steady.trusty;
}

-- What the daemon keeps once the file is read.
abbrev pub Returned : Bool → ℕ → (Text → Option Entry) → Server Manager → Type 0
Returned good top f srv =
    (m : ℕ) × (m ≤ top)
    × Keeps good (record { table = record { entries = f; next = m }; file = some f }) srv

module _ {Signer : Type 0} (sys : System Signer) (nets : Text → Net) {top : ℕ} {good : Bool}
    {f : Text → Option Entry} {s : Store} (steady : IsSteady good s) (there : InFile top f s)
    (positive : 0 < top) (small : top ≤ max_int) where
  reload-Returned :
      (e : Engine Manager)
      → IsSound 1 e
      → ((k : Text) → lookup k e.rules ≡ none)
      → Ensures
          (λ rules e'. Returned good top f (record { engine = e'; rules = rules }))
          (reload sys nets (load_rules (readable s)) e)
  unfolding load_rules read_file
  reload-Returned e sound empty =
      Ensures-bind _
        (Ensures-eq (ap (λ l. revive (manager_backend sys nets) l e) there.file) (
          revive-Implements (manager_backend sys nets) (manager_backend-IsQuiet sys nets) sound
            empty there.out there.displays top positive small there.numbered))
        (λ _ e' (m, bound, imp, numbered). returned _ _ (
          m,
          bound,
          record {
            implements = imp;
            store = (load_rules (readable s)).1;
            there = refl;
            steady = read-IsSteady good s steady;
            in_file = record {
              out = there.out;
              numbered = numbered;
              displays = there.displays;
              file = there.file;
            };
          },
        ))

  start-Returned :
      (mgr : Manager) (net : Net)
      → Ensures
          (λ rules e'. Returned good top f (record { engine = e'; rules = rules }))
          (start_engine sys nets mgr (readable s) (new net))
  unfolding start_engine set_remote_backend set_error_handler lock unlock new
  start-Returned mgr net =
      reload-Returned _ (equipped-IsSound mgr net) (λ k. lookup-nil {V = Rule} k)

  -- If the file of rules can be read and has the rules of a table, in the order of their IDs, which
  -- are decimals of positive numbers below a bound that is no greater than the largest int, and if
  -- the credentials can be read, then a start of the local daemon comes to the web server, whatever
  -- addresses the operating system refuses. The engine is sound then, holds just the rules of the
  -- table - each with its type, name, target and credential, and with its address if it is local -
  -- and its counter is at most at the bound; and the server keeps all that the contract of the REST
  -- API asks of it, with the table in memory and in the file. The disk may refuse what is written,
  -- unless `good` is true.
  pub run_local-Keeps :
      (persistent : Bool) (creds : Disk) (store : CredStore) (net : Net)
      → new_cred_store persistent creds ≡ opened store
      → Serves (Returned good top f) (run_local sys nets persistent creds (readable s) net)
  unfolding run_local
  run_local-Keeps persistent creds store net opens =
      rw opens (attach-Ensures (start-Returned (set_callback (new_manager store)) net))
