-- ===== src/Wiring/Mirror.antt =====
-- main.go: with the tunnel's client as the backend, the client has the engine's remote rules.
use port_forwarder.Base.{
  ℕ, ◌+◌, ◌≤◌, ◌≡◌, refl, Option, none, some, List, ◌==◌, if◌then◌else◌, length,
}
use port_forwarder.Base.Int.{max_int}
use port_forwarder.Base.Text.{Text, text_eq}
use port_forwarder.Base.Map.{lookup, lookup-insert, lookup-erase}
use port_forwarder.Base.Prog.{Ensures}
use port_forwarder.Engine.{Engine}
use port_forwarder.Engine.Table.{Table, Op}
use port_forwarder.Engine.Refinement.{Implements, run}
use port_forwarder.Engine.Mirroring.{Keeper, Mirrors, Mirrored, run-Mirrors}
use port_forwarder.Tunnel.Protocol.{Frame}
use port_forwarder.Tunnel.Client
use port_forwarder.Tunnel.Client.{Client, ClientRule, encode}
use port_forwarder.Wiring.{
  ClientBackend, tunnel_rule, add_remote, remove_remote, client_backend, client_backend-IsQuiet,
}

encode-rules : (o : Option ℕ) (f : Frame) (c : Client) → (encode o f c).rules ≡ c.rules
encode-rules none f c = refl
encode-rules (some h) f c = refl

pub add-rules :
    (r : ClientRule) (c : Client) (k : Text)
    → lookup k (Client.add r c).rules ≡ (if k == r.id then some r else lookup k c.rules)
unfolding Client.add
add-rules r c k = rw (encode-rules c.enc) (lookup-insert k r.id r c.rules)

pub remove-rules :
    (id : Text) (c : Client) (k : Text)
    → lookup k (Client.remove id c).rules ≡ (if k == id then none else lookup k c.rules)
unfolding Client.remove
remove-rules id c k = rw (encode-rules c.enc) (lookup-erase k id c.rules)

-- The client keeps the fields of a rule that the tunnel needs.
unfoldable pub client_keeper : Keeper client_backend ClientRule
unfolding add_remote remove_remote
client_keeper = record {
  of = tunnel_rule;
  has = λ b k. lookup k b.client.rules;
  Good = λ b. Unit;
  add_has = λ r b good free. (tt, add-rules (tunnel_rule r) b.client);
  remove_has = λ id b good. (tt, remove-rules id b.client);
}

-- Any sequence of calls of `Add`, `Update` and `Remove`, on an engine that is sound and holds the
-- rules of a table, with the tunnel's client as its backend, returns, as long as the counter does
-- not reach the largest int, with the table's answers. If the client had just the table's remote
-- rules, with the fields that they have in the table, so it has behind the calls, of the table
-- behind the same calls, and the engine holds the rules of that table.
pub client-Mirrors :
    (ops : List Op) {t : Table} {e : Engine ClientBackend} {b : ClientBackend}
    → Implements t e
    → t.next + length ops ≤ max_int
    → e.remote ≡ some b
    → Mirrors client_keeper t b
    → Ensures (Mirrored client_keeper ops t) (run client_backend ops e)
client-Mirrors ops imp room is_some mirrors =
    run-Mirrors client_keeper client_backend-IsQuiet ops imp room is_some mirrors
