-- ===== src/Net.antt =====
-- What the program uses of Go's package net: `net.Listen`, `Listener.Addr` and `Listener.Close`.
-- The operating system answers the calls: `resolve i a` is the address that the i-th call binds for
-- the requested address `a`, or `none` if it refuses. An address that is still open is refused.
pub mod Laws
pub mod HostPort
use port_forwarder.Base.{
  ℕ, suc, Bool, true, false, ◌||◌, Option, none, some, List, [], ◌∷◌, ◌==◌, nat_eq, if◌then◌else◌,
}
use port_forwarder.Base.Text.{Text, text_eq}

pub record Listener : Type 0 where
  pub handle : ℕ
  pub addr : Text

pub record Net : Type 0 where
  pub resolve : ℕ → Text → Option Text
  pub calls : ℕ
  pub open_lns : List Listener

unfoldable pub addr_in_use : Text → List Listener → Bool
addr_in_use a [] = false
addr_in_use a (l ∷ ls) = a == l.addr || addr_in_use a ls

unfoldable pub is_open : ℕ → List Listener → Bool
is_open h [] = false
is_open h (l ∷ ls) = h == l.handle || is_open h ls

unfoldable pub close_handle : ℕ → List Listener → List Listener
close_handle h [] = []
close_handle h (l ∷ ls) = let rest = close_handle h ls in if h == l.handle then rest else l ∷ rest

bind_addr : Option Text → Net → Option Listener × Net
bind_addr none net = (none, record net { calls = suc net.calls })
bind_addr (some a) net =
    let l : Listener = record { handle = net.calls; addr = a } in
    if addr_in_use a net.open_lns
    then (none, record net { calls = suc net.calls })
    else (some l, record net { calls = suc net.calls; open_lns = l ∷ net.open_lns })

-- `net.Listen("tcp", a)`
unfoldable pub listen : Text → Net → Option Listener × Net
unfolding bind_addr
listen a net = bind_addr (net.resolve net.calls a) net

-- `ln.Close()`; its error is ignored everywhere.
unfoldable pub close : Listener → Net → Net
close l net = record net { open_lns = close_handle l.handle net.open_lns }
