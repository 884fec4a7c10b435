-- ===== src/Engine/Sockets.antt =====
-- internal/engine/engine.go: what holds of the listeners and stop channels that the engine keeps,
-- and that `startLocked` and `stopLocked` keep it.
use port_forwarder.Base.{
  ℕ, suc, ◌<◌, ◌≡◌, true, false, none, some, List, ◌∷◌, arith, nat_eq, contains,
}
use port_forwarder.Base.Text.{Text, text_eq}
use port_forwarder.Base.Map.{Map, lookup, insert, erase, lookup-insert, lookup-erase}
use port_forwarder.Net
use port_forwarder.Net.{Net, Listener, is_open}
use port_forwarder.Net.Laws.{is_open-close, calls-close, calls-listen, listen-none, listen-some}

-- Each listener is open and has a stop channel of its own, which is not closed.
pub record Sockets (lns : Map Listener) (stop : Map ℕ) (made : ℕ) (closed : List ℕ) (net : Net)
    : Type 0 where
  pub stop_of :
      (k : Text) (ln : Listener)
      → lookup k lns ≡ some ln
      → (c : ℕ) × (lookup k stop ≡ some c) × (contains closed c ≡ false)
  pub stop_small : (k : Text) (c : ℕ) → lookup k stop ≡ some c → c < made
  pub closed_small : (c : ℕ) → contains closed c ≡ true → c < made
  pub stop_apart : (j k : Text) (c : ℕ) → lookup j stop ≡ some c → lookup k stop ≡ some c → j ≡ k
  pub opened :
      (k : Text) (ln : Listener) → lookup k lns ≡ some ln → is_open ln.handle net.open_lns ≡ true
  pub handle_small : (k : Text) (ln : Listener) → lookup k lns ≡ some ln → ln.handle < net.calls
  pub handle_apart :
      (j k : Text) (l m : Listener)
      → lookup j lns ≡ some l
      → lookup k lns ≡ some m
      → l.handle ≡ m.handle
      → j ≡ k

module _ {lns : Map Listener} {stop : Map ℕ} {made : ℕ} {closed : List ℕ} {net : Net}
    (s : Sockets lns stop made closed net) where
  -- A refused `net.Listen` changes nothing but the number of calls.
  pub Sockets-refused :
      (a : Text) → (Net.listen a net).0 ≡ none → Sockets lns stop made closed (Net.listen a net).1
  Sockets-refused a h = record {
    stop_of = s.stop_of;
    stop_small = s.stop_small;
    closed_small = s.closed_small;
    stop_apart = s.stop_apart;
    opened = λ k ln p. rw (listen-none a net h) (s.opened k ln p);
    handle_small = λ k ln p. omega (arith, calls-listen a net, s.handle_small k ln p);
    handle_apart = s.handle_apart;
  }

  module _ (a id : Text) (ln : Listener) (h : (Net.listen a net).0 ≡ some ln) where
    pub Sockets-started :
        Sockets (insert id ln lns) (insert id made stop) (suc made) closed (Net.listen a net).1
    unfolding is_open
    Sockets-started = record {
      stop_of = λ k m p. elim (text_eq.dec k id) [
        | yes same ↦ (
          made,
          ground (arith, lookup-insert k id made stop),
          ground (arith, s.closed_small made),
        )
        | no other ↦
            let (c, has, fresh) = s.stop_of k m (ground (arith, lookup-insert k id ln lns)) in
            (c, ground (arith, lookup-insert k id made stop), fresh)
      ];
      stop_small = λ k c p. ground (arith, lookup-insert k id made stop, s.stop_small k c);
      closed_small = λ c p. ground (arith, s.closed_small c p);
      stop_apart = λ j k c p q. ground (
        arith,
        lookup-insert j id made stop,
        lookup-insert k id made stop,
        s.stop_small k c,
        s.stop_small j c,
        s.stop_apart j k c,
      );
      opened = λ k m p.
          rw ((listen-some a net h).1)
            (ground (arith, lookup-insert k id ln lns, s.opened k m, listen-some a net h));
      handle_small = λ k m p. ground (
        arith,
        lookup-insert k id ln lns,
        s.handle_small k m,
        listen-some a net h,
        calls-listen a net,
      );
      handle_apart = λ j k l m p q e. ground (
        arith,
        lookup-insert j id ln lns,
        lookup-insert k id ln lns,
        s.handle_small j l,
        s.handle_small k m,
        s.handle_apart j k l m,
        listen-some a net h,
      );
    }

  module _ (id : Text) (ln : Listener) (c : ℕ) (at : lookup id lns ≡ some ln)
      (ch : lookup id stop ≡ some c) where
    pub Sockets-stopped :
        Sockets (erase id lns) (erase id stop) made (c ∷ closed) (Net.close ln net)
    Sockets-stopped = record {
      stop_of = λ k m p.
          let (d, has, fresh) = s.stop_of k m (ground (arith, lookup-erase k id lns)) in
          (
            d,
            ground (arith, lookup-erase k id stop, lookup-erase k id lns),
            ground (arith, s.stop_apart k id c, lookup-erase k id lns),
          );
      stop_small = λ k d p. ground (arith, lookup-erase k id stop, s.stop_small k d);
      closed_small = λ d p. ground (arith, s.closed_small d, s.stop_small id c);
      stop_apart = λ j k d p q.
          ground (arith, lookup-erase j id stop, lookup-erase k id stop, s.stop_apart j k d);
      opened = λ k m p. ground (
        arith,
        lookup-erase k id lns,
        is_open-close ln m.handle net,
        s.opened k m,
        s.handle_apart k id m ln,
      );
      handle_small =
          λ k m p. ground (arith, lookup-erase k id lns, calls-close ln net, s.handle_small k m);
      handle_apart = λ j k l m p q e.
          ground (arith, lookup-erase j id lns, lookup-erase k id lns, s.handle_apart j k l m);
    }
