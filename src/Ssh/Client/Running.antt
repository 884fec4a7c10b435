-- ===== src/Ssh/Client/Running.antt =====
-- internal/ssh/client.go: the goroutine of `Run`, with the calls of the other methods between its
-- steps. A step is one section under the mutex: the other methods run between a dial's success and
-- the snapshot of the rules, between the snapshot and each subscription, and between the two
-- sections of `Add`; the listeners that `Shutdown` took are closed one at a time, after its section.
-- A `Listen` on a connection that is no longer the client's fails. Calls of the callback, which are
-- made behind the sections, count to the section before.
pub mod Keys
pub mod Owners
pub mod Idling
pub mod Closing
pub mod Keeping
pub mod Leaks
pub mod Whole
use port_forwarder.Base.{
  ℕ, zero, suc, Bool, true, false, ◌||◌, ◌≡◌, ◌*◌, Option, none, some, List, [], ◌∷◌, ◌++◌, ◌==◌,
  if◌then◌else◌,
}
use port_forwarder.Base.Text.{Text, text_eq}
use port_forwarder.Base.Map.{Map, lookup, insert}
use port_forwarder.Net
use port_forwarder.Net.{Net, Listener}
use port_forwarder.Ssh.Client.{
  Client, ClientRule, Error, remote_listen, report, subscribe, add, remove, drain_listeners,
  cancelled, fail_all, next_backoff,
}

-- At the test of the loop or in `dial`; behind the section that stores the connection; in the loop of `subscribeAll`, with the
-- rules that are left; waiting for the connection to drop or the context to end; between
-- `drainListeners` and `clearConn`; behind the return.
pub data Phase : Type 0 where
  dialling connecting up clearing ended : Phase
  subscribing : List ClientRule → Phase

-- An `Add` that found a connection and has not subscribed yet.
pub record Call : Type 0 where
  pub rule : ClientRule
  pub session : ℕ

-- `session` numbers the connections. `calls` are the calls of `Add` between their sections, and
-- `closing` the listeners that calls of `Shutdown` took and have not closed yet. `raced` notes the IDs
-- whose rule was taken away while a subscription of it was under way; nothing reads it.
pub record Runner : Type 0 where
  pub client : Client
  pub phase : Phase
  pub backoff : ℕ
  pub session : ℕ
  pub calls : List Call
  pub closing : List Listener
  pub raced : List Text

-- `time.Second`
abbrev pub second : ℕ
second = 1000000000

abbrev pub start : Client → Runner
start c = record {
  client = c;
  phase = dialling;
  backoff = second;
  session = 0;
  calls = [];
  closing = [];
  raced = [];
}

abbrev pub values : Map ClientRule → List ClientRule
values [] = []
values ((_, r) ∷ m) = r ∷ values m

abbrev pub listeners : Map Listener → List Listener
listeners [] = []
listeners ((_, ln) ∷ m) = ln ∷ listeners m

-- The IDs whose subscription is under way.
abbrev pub rule_ids : List ClientRule → List Text
rule_ids [] = []
rule_ids (r ∷ rs) = r.id ∷ rule_ids rs

abbrev pub call_ids : List Call → List Text
call_ids [] = []
call_ids (c ∷ cs) = c.rule.id ∷ call_ids cs

abbrev pub phase_ids : Phase → List Text
phase_ids (subscribing rs) = rule_ids rs
phase_ids dialling = []
phase_ids connecting = []
phase_ids up = []
phase_ids clearing = []
phase_ids ended = []

abbrev pub holds : Text → List Text → Bool
holds k [] = false
holds k (j ∷ js) = (k == j) || holds k js

abbrev pub without : Text → List Text → List Text
without k [] = []
without k (j ∷ js) = if k == j then without k js else j ∷ without k js

abbrev pub under_way : Text → Runner → Bool
under_way k x = holds k (phase_ids x.phase) || holds k (call_ids x.calls)

-- The connection of the current session is open, so that `Listen` asks the server.
abbrev pub IsLive : Phase → Type 0
IsLive connecting = Unit
IsLive (subscribing rs) = Unit
IsLive up = Unit
IsLive dialling = ⊥
IsLive clearing = ⊥
IsLive ended = ⊥

-- `subscribe` on a connection that has ended.
abbrev pub fail_new : ClientRule → Option Listener → Client → Client
fail_new r none c = report r.id [] (some (remote_listen r.listen)) c
fail_new r (some there) c = c

-- The first section of `Add`.
abbrev pub note : ClientRule → Client → Client
note r c = record c { pending = insert r.id r c.pending }

-- The section of `Shutdown`.
abbrev pub take_all : Client → Client
take_all c = record c { conn = false; lns = []; pending = [] }

abbrev pub close_one : Listener → Client → Client
close_one ln c = record c { net = Net.close ln c.net; stopped = ln.handle ∷ c.stopped }

pub data Step : Runner → Runner → Type 0 where
  dial_fails :
      (err : Error) (x : Runner)
      → x.phase ≡ dialling
      → Step x (record x { client = fail_all err x.client; backoff = next_backoff x.backoff })
  connects :
      (x : Runner)
      → x.phase ≡ dialling
      → Step x (record x {
        client = drain_listeners (record x.client { conn = true });
        phase = connecting;
        backoff = second;
        session = suc x.session;
      })
  snapshots :
      (x : Runner)
      → x.phase ≡ connecting
      → Step x (record x { phase = subscribing (values x.client.pending) })
  subscribes :
      (front : List ClientRule) (r : ClientRule) (back : List ClientRule) (x : Runner)
      → x.phase ≡ subscribing (front ++ r ∷ back)
      → Step x (record x { client = subscribe r x.client; phase = subscribing (front ++ back) })
  waits : (x : Runner) → x.phase ≡ subscribing [] → Step x (record x { phase = up })
  drops :
      (x : Runner)
      → x.phase ≡ up
      → Step x (record x { client = drain_listeners x.client; phase = clearing })
  clears :
      (x : Runner)
      → x.phase ≡ clearing
      → Step x (record x { client = cancelled x.client; phase = dialling })
  cancels :
      (x : Runner) → x.phase ≡ up → Step x (record x { client = cancelled x.client; phase = ended })
  cancels_dial :
      (err : Error) (x : Runner)
      → x.phase ≡ dialling
      → Step x (record x {
        client = fail_all err x.client;
        phase = ended;
        backoff = next_backoff x.backoff;
      })
  ends : (x : Runner) → x.phase ≡ dialling → Step x (record x { phase = ended })
  adds_offline :
      (r : ClientRule) (x : Runner)
      → x.client.conn ≡ false
      → Step x (record x { client = add r x.client })
  adds_online :
      (r : ClientRule) (x : Runner)
      → x.client.conn ≡ true
      → Step x (record x {
        client = note r x.client;
        calls = record { rule = r; session = x.session } ∷ x.calls;
      })
  call_subscribes :
      (front : List Call) (c : Call) (back : List Call) (x : Runner)
      → x.calls ≡ front ++ c ∷ back
      → c.session ≡ x.session
      → IsLive x.phase
      → Step x (record x { client = subscribe c.rule x.client; calls = front ++ back })
  call_fails :
      (front : List Call) (c : Call) (back : List Call) (x : Runner)
      → x.calls ≡ front ++ c ∷ back
      → Step x (record x {
        client = fail_new c.rule (lookup c.rule.id x.client.lns) x.client;
        calls = front ++ back;
      })
  removes :
      (id : Text) (x : Runner)
      → Step x (record x {
        client = remove id x.client;
        raced = if under_way id x then id ∷ x.raced else without id x.raced;
      })
  shuts :
      (x : Runner)
      → Step x (record x {
        client = take_all x.client;
        closing = listeners x.client.lns ++ x.closing;
        raced = phase_ids x.phase ++ call_ids x.calls;
      })
  closes :
      (front : List Listener) (ln : Listener) (back : List Listener) (x : Runner)
      → x.closing ≡ front ++ ln ∷ back
      → Step x (record x { client = close_one ln x.client; closing = front ++ back })

pub data Steps : Runner → Runner → Type 0 where
  here : (x : Runner) → Steps x x
  after : {x y z : Runner} → Step x y → Steps y z → Steps x z
