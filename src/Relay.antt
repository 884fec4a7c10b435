-- ===== src/Relay.antt =====
-- internal/forward/forward.go: `Relay` and its two pipes. A schedule says which of the two
-- goroutines moves next; a pipe that is scheduled while it copies is one whose `io.Copy` returns,
-- which may be at any time.
pub mod Invariant
pub mod Laws
use port_forwarder.Base.{ℕ, suc, ◌+◌, ◌-◌, List, [], ◌∷◌}

-- `*net.TCPConn`, or another `net.Conn`.
pub data Kind : Type 0 where
  tcp : Kind
  other : Kind

-- A connection, with how often `CloseWrite` and `Close` were called on it.
pub record Conn : Type 0 where
  pub kind : Kind
  pub write_closes : ℕ
  pub closes : ℕ

-- Where a pipe is: in `io.Copy`, before `closeWriteHalf`, before `once.Do`, before the two calls of
-- `Close` inside it, and behind `wg.Done`.
pub data Phase : Type 0 where
  copying : Phase
  copied : Phase
  half_closed : Phase
  closing_a : Phase
  closing_b : Phase
  finished : Phase

-- `sync.Once`: a second caller waits while the first one runs the function.
pub data Once : Type 0 where
  fresh : Once
  busy : Once
  used : Once

-- A pipe is named for its destination.
pub data Side : Type 0 where
  into_a : Side
  into_b : Side

-- `waiting` is the counter of the wait group, which `Relay` waits to see at 0.
pub record Relay : Type 0 where
  pub a : Conn
  pub b : Conn
  pub to_a : Phase
  pub to_b : Phase
  pub once : Once
  pub waiting : ℕ

abbrev pub fresh_conn : Kind → Conn
fresh_conn k = record { kind = k; write_closes = 0; closes = 0 }

-- `Relay` up to its `wg.Wait()`.
abbrev pub start : Kind → Kind → Relay
start j k = record {
  a = fresh_conn j;
  b = fresh_conn k;
  to_a = copying;
  to_b = copying;
  once = fresh;
  waiting = 2;
}

abbrev pub close : Conn → Conn
close c = record c { closes = suc c.closes }

abbrev pub close_write_as : Kind → Conn → Conn
close_write_as tcp c = record c { write_closes = suc c.write_closes }
close_write_as other c = close c

abbrev pub close_write_half : Conn → Conn
close_write_half c = close_write_as c.kind c

abbrev pub go_to : Side → Phase → Relay → Relay
go_to into_a p r = record r { to_a = p }
go_to into_b p r = record r { to_b = p }

-- `closeWriteHalf(dst)`
abbrev pub close_dst : Side → Relay → Relay
close_dst into_a r = record r { a = close_write_half r.a }
close_dst into_b r = record r { b = close_write_half r.b }

-- `wg.Done()`
abbrev pub done : Side → Relay → Relay
done s r = go_to s finished (record r { waiting = r.waiting - 1 })

-- `once.Do`
abbrev pub enter : Side → Once → Relay → Relay
enter s fresh r = go_to s closing_a (record r { once = busy })
enter s busy r = r
enter s used r = done s r

abbrev pub move : Side → Phase → Relay → Relay
move s copying r = go_to s copied r
move s copied r = go_to s half_closed (close_dst s r)
move s half_closed r = enter s r.once r
move s closing_a r = go_to s closing_b (record r { a = close r.a })
move s closing_b r = done s (record r { b = close r.b; once = used })
move s finished r = r

abbrev pub phase_of : Side → Relay → Phase
phase_of into_a r = r.to_a
phase_of into_b r = r.to_b

-- One step of the pipe into that side.
unfoldable pub tick : Side → Relay → Relay
tick s r = move s (phase_of s r) r

unfoldable pub run : List Side → Relay → Relay
run [] r = r
run (s ∷ ss) r = run ss (tick s r)
