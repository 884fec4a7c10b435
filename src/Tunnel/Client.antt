-- ===== src/Tunnel/Client.antt =====
-- internal/tunnel/client.go: the end of the tunnel that dials. The goroutine of `Run` is a state
-- machine: each part of its loop between two calls that wait, or that take the mutex, is one step,
-- and `Add` and `Remove` run between the steps. What is written to a connection, and what the
-- callback is called with, is kept in lists, the last one first; the errors of `Encode` are ignored
-- by the source. A connection is named by the number of the dial.
pub mod Heard
pub mod Registered
pub mod Served
pub mod Pacing
pub mod Opening
pub mod Meeting
use port_forwarder.Base.{
  ℕ, suc, ◌*◌, ◌≡◌, ◌==◌, nat_eq, Bool, true, false, Option, none, some, List, [], ◌∷◌, ltb,
  if◌then◌else◌,
}
use port_forwarder.Base.Text.{Text, text_eq}
use port_forwarder.Base.Map.{Map, lookup, insert, erase}
use port_forwarder.Tunnel.Protocol.{
  Frame, empty_frame, frame_register, frame_unregister, frame_open, frame_error,
}

pub record ClientRule : Type 0 where
  pub id : Text
  pub name : Text
  pub listen : Text
  pub target : Text

-- A call of the callback: the rule, and the message of the error.
pub record RuleReport : Type 0 where
  pub rule : ClientRule
  pub err : Option Text

-- `opening` are the frames that `handleOpen` was started with.
pub record Client : Type 0 where
  pub server_addr : Text
  pub conn : Option ℕ
  pub enc : Option ℕ
  pub rules : Map ClientRule
  pub on_rule : Bool
  pub dialled : ℕ
  pub closed : List ℕ
  pub sent : List (ℕ × Frame)
  pub reports : List RuleReport
  pub opening : List Frame

unfoldable pub new_client : Text → Client
new_client server_addr = record {
  server_addr = server_addr;
  conn = none;
  enc = none;
  rules = [];
  on_rule = false;
  dialled = 0;
  closed = [];
  sent = [];
  reports = [];
  opening = [];
}

abbrev pub set_on_rule : Client → Client
set_on_rule c = record c { on_rule = true }

abbrev pub register_frame : ClientRule → Frame
register_frame r = record empty_frame {
  typ = frame_register;
  id = r.id;
  name = r.name;
  listen = r.listen;
  target = r.target;
}

abbrev pub unregister_frame : Text → Frame
unregister_frame id = record empty_frame { typ = frame_unregister; id = id }

-- `enc.Encode(f)`, unless `enc` is nil.
abbrev pub encode : Option ℕ → Frame → Client → Client
encode none f c = c
encode (some h) f c = record c { sent = (h, f) ∷ c.sent }

-- `send`
abbrev pub send : Frame → Client → Client
send f c = encode c.enc f c

-- `Add`
unfoldable pub add : ClientRule → Client → Client
add r c = encode c.enc (register_frame r) (record c { rules = insert r.id r c.rules })

-- `Remove`
unfoldable pub remove : Text → Client → Client
remove id c = encode c.enc (unregister_frame id) (record c { rules = erase id c.rules })

abbrev pub values : Map ClientRule → List ClientRule
values [] = []
values ((_, r) ∷ m) = r ∷ values m

-- `snapshot`
abbrev pub snapshot : Client → List ClientRule
snapshot c = values c.rules

-- `reportRule`
abbrev pub report_rule : ClientRule → Option Text → Client → Client
report_rule r err c =
    if c.on_rule then record c { reports = record { rule = r; err = err } ∷ c.reports } else c

abbrev pub report_found : Option ClientRule → Text → Client → Client
report_found none message c = c
report_found (some r) message c = report_rule r (some message) c

-- `reportError`
unfoldable pub report_error : Frame → Client → Client
report_error f c = report_found (lookup f.id c.rules) f.message c

-- `connect`, when the dial succeeds.
unfoldable pub connect : Client → Client
connect c = record c { conn = some c.dialled; enc = some c.dialled; dialled = suc c.dialled }

-- The body of the loop of `serve`.
unfoldable pub handle : Frame → Client → Client
unfolding report_error frame_open frame_error
handle f c =
    if f.typ == frame_open
    then record c { opening = f ∷ c.opening }
    else if f.typ == frame_error
    then report_error f c
    else c

abbrev pub hang_up_on : Option ℕ → Client → Client
hang_up_on none c = c
hang_up_on (some h) c = record c { closed = h ∷ c.closed; conn = none; enc = none }

-- The deferred function of `serve`.
unfoldable pub hang_up : Client → Client
hang_up c = hang_up_on c.conn c

-- The delays are in nanoseconds.
abbrev pub second : ℕ
second = 1000000000

-- `if backoff < 30*time.Second { backoff *= 2 }`
unfoldable pub grow : ℕ → ℕ
grow d = if ltb d (30 * second) then d * 2 else d

-- Where the goroutine of `Run` is: at the head of the loop or in `connect`; in the delay, behind
-- `connect`; in the loop that registers the rules of the snapshot; in `serve`; behind its return.
pub data Phase : Type 0 where
  dialling waiting connected : Phase
  registering : List ClientRule → Phase
  serving ended : Phase

-- `delays` are those that `Run` has waited for, the last one first.
pub record Runner : Type 0 where
  pub client : Client
  pub phase : Phase
  pub backoff : ℕ
  pub delays : List ℕ

unfoldable pub start : Client → Runner
start c = record { client = c; phase = dialling; backoff = second; delays = [] }

-- No rules of a snapshot are still to be registered.
abbrev pub IsCalm : Phase → Type 0
IsCalm (registering (_ ∷ _)) = ⊥
IsCalm _ = Unit

-- The steps of `Run`, and the calls of `Add` and `Remove`. In a calm run there is no such call
-- while the rules of a snapshot are being registered.
pub data Step (calm : Bool) : Runner → Runner → Type 0 where
  dial_fails :
      (c : Client) (d : ℕ) (ds : List ℕ)
      → Step calm
          (record { client = c; phase = dialling; backoff = d; delays = ds })
          (record { client = c; phase = waiting; backoff = d; delays = d ∷ ds })
  delay_ends :
      (c : Client) (d : ℕ) (ds : List ℕ)
      → Step calm
          (record { client = c; phase = waiting; backoff = d; delays = ds })
          (record { client = c; phase = dialling; backoff = grow d; delays = ds })
  connects :
      (c : Client) (d : ℕ) (ds : List ℕ)
      → Step calm
          (record { client = c; phase = dialling; backoff = d; delays = ds })
          (record { client = connect c; phase = connected; backoff = second; delays = ds })
  takes_snapshot :
      (c : Client) (d : ℕ) (ds : List ℕ)
      → Step calm
          (record { client = c; phase = connected; backoff = d; delays = ds })
          (record { client = c; phase = registering (snapshot c); backoff = d; delays = ds })
  registers :
      (c : Client) (r : ClientRule) (rs : List ClientRule) (d : ℕ) (ds : List ℕ)
      → Step calm
          (record { client = c; phase = registering (r ∷ rs); backoff = d; delays = ds })
          (record {
            client = send (register_frame r) c;
            phase = registering rs;
            backoff = d;
            delays = ds;
          })
  serves :
      (c : Client) (d : ℕ) (ds : List ℕ)
      → Step calm
          (record { client = c; phase = registering []; backoff = d; delays = ds })
          (record { client = c; phase = serving; backoff = d; delays = ds })
  reads :
      (f : Frame) (c : Client) (d : ℕ) (ds : List ℕ)
      → Step calm
          (record { client = c; phase = serving; backoff = d; delays = ds })
          (record { client = handle f c; phase = serving; backoff = d; delays = ds })
  drops :
      (c : Client) (d : ℕ) (ds : List ℕ)
      → Step calm
          (record { client = c; phase = serving; backoff = d; delays = ds })
          (record { client = hang_up c; phase = dialling; backoff = d; delays = ds })
  cancels_dial :
      (c : Client) (d : ℕ) (ds : List ℕ)
      → Step calm
          (record { client = c; phase = dialling; backoff = d; delays = ds })
          (record { client = c; phase = ended; backoff = d; delays = ds })
  cancels_delay :
      (c : Client) (d : ℕ) (ds : List ℕ)
      → Step calm
          (record { client = c; phase = waiting; backoff = d; delays = ds })
          (record { client = c; phase = ended; backoff = d; delays = ds })
  adds :
      (r : ClientRule) (x : Runner)
      → (calm ≡ true → IsCalm x.phase)
      → Step calm x (record x { client = add r x.client })
  removes :
      (id : Text) (x : Runner)
      → (calm ≡ true → IsCalm x.phase)
      → Step calm x (record x { client = remove id x.client })

pub data Steps (calm : Bool) : Runner → Runner → Type 0 where
  done : (x : Runner) → Steps calm x x
  next : (x : Runner) {y z : Runner} → Step calm x y → Steps calm y z → Steps calm x z
