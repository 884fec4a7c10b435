-- ===== src/Net/Laws.antt =====
-- Which listeners are open after `listen` and `close`.
use port_forwarder.Base.{
  ℕ, suc, ◌≡◌, refl, false, none, some, List, [], ◌∷◌, arith, ◌==◌, nat_eq, if◌then◌else◌,
}
use port_forwarder.Base.Text.{Text}
use port_forwarder.Net.{Listener, Net, is_open, close_handle, listen, close}

is_open-close_handle :
    (h k : ℕ) (ls : List Listener)
    → is_open k (close_handle h ls) ≡ (if k == h then false else is_open k ls)
unfolding is_open close_handle
is_open-close_handle h k [] = ground arith
is_open-close_handle h k (l ∷ ls) = ground (arith, is_open-close_handle h k ls)

pub is_open-close :
    (l : Listener) (k : ℕ) (net : Net)
    → is_open k (close l net).open_lns ≡ (if k == l.handle then false else is_open k net.open_lns)
unfolding close
is_open-close l k net = is_open-close_handle l.handle k net.open_lns

pub calls-close : (l : Listener) (net : Net) → (close l net).calls ≡ net.calls
unfolding close
calls-close l net = refl

pub calls-listen : (a : Text) (net : Net) → (listen a net).1.calls ≡ suc net.calls
unfolding listen
calls-listen a net = ground arith

-- A refused call opens nothing.
pub listen-none :
    (a : Text) (net : Net) → (listen a net).0 ≡ none → (listen a net).1.open_lns ≡ net.open_lns
unfolding listen
listen-none a net h = ground arith

-- An accepted call opens one listener, whose handle is the number of the call.
pub listen-some :
    (a : Text) (net : Net) {l : Listener}
    → (listen a net).0 ≡ some l
    → (l.handle ≡ net.calls) × ((listen a net).1.open_lns ≡ l ∷ net.open_lns)
unfolding listen
listen-some a net h = ground arith
