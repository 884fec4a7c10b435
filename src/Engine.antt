-- ===== src/Engine.antt =====
-- internal/engine/engine.go: the rules of a daemon and their listeners.
--
-- A method is a program over the engine's state. `held` is the mutex `e.mu`: a goroutine that locks
-- it while it holds it never returns. A `*Rule` is named by its ID, under which the map holds it.
-- `errors` is what the error handler has been called with, `loops` the goroutines started. The
-- methods are in the children `Queries` and `Methods`, and what holds of them in the other children.
pub mod Queries
pub mod Methods
pub mod Sockets
pub mod Numbering
pub mod Steps
pub mod Soundness
pub mod Stopping
pub mod Adding
pub mod Reports
pub mod Removing
pub mod Updating
pub mod UpdatingRemote
pub mod Listing
pub mod Restarting
pub mod Refusing
pub mod Rebinding
pub mod Restoring
pub mod RestoringAll
pub mod Racing
pub mod Table
pub mod Refinement
pub mod Mirroring
pub mod AddingRemote
pub mod Accepting
pub mod Store
use port_forwarder.Base.{
  ℕ, zero, suc, ◌+◌, Bool, true, false, Option, none, some, List, [], ◌∷◌, ◌==◌, contains, nat_eq,
  if◌then◌else◌,
}
use port_forwarder.Base.Int.{ℤ, pos, negsuc, max_int, inc, geb}
use port_forwarder.Base.Text.{Text, codes, text_eq}
use port_forwarder.Base.Map.{Map, lookup, insert, erase}
use port_forwarder.Base.Prog.{
  Outcome, returns, panics, hangs, Prog, pure, gets, modify, ◌>>=◌, ◌>>◌,
}
use port_forwarder.Decimal.{format, format_int, atoi}
use port_forwarder.Net
use port_forwarder.Net.{Net, Listener}

-- A string; `unset` is the empty one, and a file may hold others than the constants (`custom`).
pub data Status : Type 0 where
  unset pending running stopped error : Status
  custom : Text → Status

-- A rule's type is a string, and the only test that is made of it is for "remote".
unfoldable pub rule_type_local : Text
rule_type_local = codes "local"

unfoldable pub rule_type_remote : Text
rule_type_remote = codes "remote"

pub record Rule : Type 0 where
  pub id : Text
  pub typ : Text
  pub name : Text
  pub listen : Text
  pub target : Text
  pub status : Status
  pub credential : Text

pub data Error : Type 0 where
  rule_not_found : Error
  no_backend : Error
  listen_failed : Text → Error
  accept_failed : Error
  dial_failed : Text → Error
  remote_failed : Text → Error

-- A call of `UpdateRemoteStatus(id, listen, err)` that a backend makes.
pub record Report : Type 0 where
  pub id : Text
  pub listen : Text
  pub err : Option Error

-- `RemoteBackend`: a method returns the backend's new state, and the reports that it makes to the
-- engine before it returns.
pub record RemoteBackend (B : Type 0) : Type 0 where
  pub add_remote : Rule → B → B × List Report
  pub remove_remote : Text → B → B × List Report

-- `go e.acceptLoop(r, ln, stopCh)`
pub record Loop : Type 0 where
  pub rule : Text
  pub ln : Listener
  pub stop_ch : ℕ

pub record Engine (B : Type 0) : Type 0 where
  pub held : Bool
  pub rules : Map Rule
  pub lns : Map Listener
  pub stop : Map ℕ
  pub next_id : ℤ
  pub on_error : Bool
  pub remote : Option B
  pub net : Net
  -- channels made so far, and those that are closed
  pub made : ℕ
  pub closed : List ℕ
  pub loops : List Loop
  pub errors : List (Text × Error)

unfoldable pub edit_found : Text → (Rule → Rule) → Option Rule → Map Rule → Map Rule
edit_found id f none m = m
edit_found id f (some r) m = insert id (f r) m

unfoldable pub put_status : Status → Rule → Rule
put_status s r = record r { status = s }

module _ {B : Type 0} where
  -- `New()`, in a process whose network is `net`.
  unfoldable pub new : Net → Engine B
  new net = record {
    held = false;
    rules = [];
    lns = [];
    stop = [];
    next_id = pos 1;
    on_error = false;
    remote = none;
    net = net;
    made = 0;
    closed = [];
    loops = [];
    errors = [];
  }

  unfoldable pub lock : Prog (Engine B) (Unit {0})
  lock e = if e.held then hangs else returns tt (record e { held = true })

  unfoldable pub unlock : Prog (Engine B) (Unit {0})
  unlock e = if e.held then returns tt (record e { held = false }) else panics

  unfoldable pub set_error_handler : Prog (Engine B) (Unit {0})
  unfolding lock unlock
  set_error_handler = do lock; modify (λ e. record e { on_error = true }); unlock

  unfoldable pub set_remote_backend : B → Prog (Engine B) (Unit {0})
  unfolding lock unlock
  set_remote_backend b = do lock; modify (λ e. record e { remote = some b }); unlock

  -- An assignment to fields of the rule behind a pointer.
  unfoldable pub edit : Text → (Rule → Rule) → Engine B → Engine B
  unfolding edit_found
  edit id f e = record e { rules = edit_found id f (lookup id e.rules) e.rules }

  unfoldable pub set_status : Text → Status → Prog (Engine B) (Unit {0})
  unfolding lock unlock edit
  set_status id s = do lock; modify (edit id (put_status s)); unlock

  unfoldable pub call_handler : Text → Error → Engine B → Engine B
  call_handler id err e = if e.on_error then record e { errors = (id, err) ∷ e.errors } else e

  unfoldable pub report_error : Text → Error → Prog (Engine B) (Unit {0})
  unfolding lock unlock call_handler
  report_error id err = do lock; unlock; modify (call_handler id err)

  -- The caller must hold the mutex.
  unfoldable pub started : Rule → Option Listener → Engine B → Option Error × Engine B
  started r none e = (some (listen_failed r.listen), e)
  started r (some ln) e = (
    none,
    record e {
      lns = insert r.id ln e.lns;
      stop = insert r.id e.made e.stop;
      made = suc e.made;
      loops = record { rule = r.id; ln = ln; stop_ch = e.made } ∷ e.loops;
    },
  )

  unfoldable pub start_locked : Rule → Prog (Engine B) (Option Error)
  unfolding started
  start_locked r e =
      let (ln, net') = Net.listen r.listen e.net in
      let (err, e') = started r ln (record e { net = net' }) in returns err e'

  -- Closing a nil channel, or a closed one, panics.
  unfoldable pub close_channel : Option ℕ → Prog (Engine B) (Unit {0})
  close_channel none e = panics
  close_channel (some c) e =
      if contains e.closed c then panics else returns tt (record e { closed = c ∷ e.closed })

  unfoldable pub stop_found : Text → Option Listener → Prog (Engine B) (Unit {0})
  unfolding close_channel edit
  stop_found id none = pure tt
  stop_found id (some ln) = do
    modify (λ e. record e { net = Net.close ln e.net })
    c ← gets (λ e. lookup id e.stop)
    close_channel c
    modify (λ e. record e { lns = erase id e.lns; stop = erase id e.stop })
    modify (edit id (put_status stopped))

  unfoldable pub stop_locked : Text → Prog (Engine B) (Unit {0})
  unfolding stop_found
  stop_locked id = do ln ← gets (λ e. lookup id e.lns); stop_found id ln
