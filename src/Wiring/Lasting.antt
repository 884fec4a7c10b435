-- ===== src/Wiring/Lasting.antt =====
-- main.go and internal/api/api.go: requests on rules, and the start of the daemon that comes after.
use port_forwarder.Base.{ℕ, ◌+◌, ◌<◌, ◌≤◌, ◌≡◌, Bool, Option, none, some, List, arith, length}
use port_forwarder.Base.Int.{max_int}
use port_forwarder.Base.Text.{Text}
use port_forwarder.Base.Prog.{Ensures, Ensures-weaken}
use port_forwarder.Net.{Net}
use port_forwarder.Files.Disk.{Disk}
use port_forwarder.Engine.{RemoteBackend}
use port_forwarder.Engine.Reports.{IsQuiet}
use port_forwarder.Engine.Store.{Store}
use port_forwarder.Engine.Store.Saved.{readable}
use port_forwarder.Ssh.Auth.{System}
use port_forwarder.Ssh.Credentials.{CredStore, opened, new_cred_store}
use port_forwarder.Api.{Response, Server}
use port_forwarder.Api.Requests.{Request, serve}
use port_forwarder.Api.Contract.{Desk, Trace}
use port_forwarder.Api.Contract.Keeping.{Keeps}
use port_forwarder.Api.Contract.Sessions.{next-Trace, serve-Trace}
use port_forwarder.Engine.Table.{Entry}
use port_forwarder.Ssh.Manager.{Manager}
use port_forwarder.Api.Contract.Saving.{IsSteady, FileHas}
use port_forwarder.Wiring.Local.{Daemon, run_local}
use port_forwarder.Wiring.Returning.{Serves, Returned, run_local-Keeps}

-- The daemon has the rules of the file, unless that was spoilt.
abbrev pub Revives : Bool → ℕ → Option (Text → Option Entry) → Daemon Manager → Type 0
Revives good top none x = Unit
Revives good top (some f) x = Serves (Returned good top f) x

module _ {Signer : Type 0} (sys : System Signer) (nets : Text → Net) where
  -- What the next daemon makes of the file that a server leaves.
  abbrev pub Lasts :
      {B : Type 0}
      → Bool
      → Bool
      → Disk
      → Net
      → List Request
      → Desk
      → List Response
      → Server B
      → Type 0
  Lasts good persistent creds net qs d resps srv =
      (d' : Desk) × (store : Store) × Trace good qs d resps d'
      × (srv.rules ≡ some store)
      × Revives good d'.table.next d'.file
          (run_local sys nets persistent creds (readable store) net)

  -- A server as in `serve-Trace` is asked any requests on rules, and then the daemon is stopped and
  -- started, with credentials that can be read and a file of rules that can be read. The requests
  -- return and are answered the way the contract says. Unless a write that failed has spoilt the
  -- file, the new daemon comes to its web server, with just the rules that the contract's file has
  -- behind the last request, though the operating system may refuse every address now; and it keeps
  -- the contract again. On a disk that takes everything the file is not spoilt.
  pub serve-Lasts :
      {B : Type 0} (be : RemoteBackend B) (qs : List Request) {good : Bool} {d : Desk}
      {srv : Server B} (persistent : Bool) (creds : Disk) (store : CredStore) (net : Net)
      → IsQuiet be
      → Keeps good d srv
      → d.table.next + length qs < max_int
      → new_cred_store persistent creds ≡ opened store
      → Ensures (Lasts good persistent creds net qs d) (serve be qs srv)
  serve-Lasts be qs persistent creds store net quiet keeps room opens =
      Ensures-weaken (serve-Trace be quiet qs keeps room) (λ resps srv' (d', trace, kept). (
        d',
        kept.store,
        trace,
        kept.there,
        revived d'.file kept.store kept.steady kept.in_file
            kept.implements.sound.inv.numbering.positive (omega (arith, next-Trace trace)),
      ))
    where
      revived :
          {good : Bool} {top : ℕ} (file : Option (Text → Option Entry)) (rules : Store)
          → IsSteady good rules
          → FileHas top file rules
          → 0 < top
          → top ≤ max_int
          → Revives good top file (run_local sys nets persistent creds (readable rules) net)
      revived none rules steady has positive small = tt
      revived (some f) rules steady has positive small =
          run_local-Keeps sys nets steady has positive small persistent creds store net opens
