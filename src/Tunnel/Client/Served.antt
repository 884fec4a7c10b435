-- ===== src/Tunnel/Client/Served.antt =====
-- internal/tunnel: the rules of a client (client.go) and those of its session at the server
-- (server.go).
use port_forwarder.Base.{
  ℕ, ◌≡◌, refl, ◌∙◌, ap, Bool, true, false, Option, none, some, List, [], ◌∷◌, arith, ◌==◌, nat_eq,
  if◌then◌else◌, Option-cases, inl, inr,
}
use port_forwarder.Base.Text.{Text, text_eq}
use port_forwarder.Base.Map.{Map, lookup, lookup-nil, lookup-insert, lookup-erase}
use port_forwarder.Net
use port_forwarder.Net.{Listener}
use port_forwarder.Tunnel.Protocol.{Frame, frame_register, frame_unregister, frame_ping}
use port_forwarder.Tunnel.Session
use port_forwarder.Tunnel.Session.{
  RuleState, Session, register, register_on, unregister, unregister_found,
}
use port_forwarder.Tunnel.Client.{ClientRule, new_client, serving, Runner, start, Steps}
use port_forwarder.Tunnel.Client.Heard.{rule_of, hear, heard}
use port_forwarder.Tunnel.Client.Registered.{serving-Registered}

-- The session reads what was written to the connection `h`, in order.
unfoldable pub serve_written : ℕ → List (ℕ × Frame) → Session → Session
serve_written h [] s = s
serve_written h ((j, f) ∷ fs) s =
    let rest = serve_written h fs s in if h == j then Session.handle f rest else rest

-- The operating system grants the address of a frame that registers a rule.
abbrev pub IsGranted : Frame → Session → Type 0
IsGranted f s = f.typ ≡ frame_register → (ln : Listener) × ((Net.listen f.listen s.net).0 ≡ some ln)

abbrev pub AllGranted : ℕ → List (ℕ × Frame) → Session → Type 0
AllGranted h [] s = Unit
AllGranted h ((j, f) ∷ fs) s = (h ≡ j → IsGranted f (serve_written h fs s)) × AllGranted h fs s

abbrev pub rule_at : Option RuleState → Option ClientRule
rule_at none = none
rule_at (some rs) = some (rule_of rs.rule)

register-rules :
    (f : Frame) (s : Session) (k : Text) {ln : Listener}
    → (Net.listen f.listen s.net).0 ≡ some ln
    → rule_at (lookup k (register f s).rules)
      ≡ (if k == f.id then some (rule_of f) else rule_at (lookup k s.rules))
unfolding register register_on
register-rules f s k {ln} granted =
    rw granted (ground (arith, lookup-insert k f.id (record { rule = f; listen = ln }) s.rules))

unregister-rules :
    (id : Text) (s : Session) (k : Text)
    → rule_at (lookup k (unregister id s).rules)
      ≡ (if k == id then none else rule_at (lookup k s.rules))
unfolding unregister unregister_found
unregister-rules id s k = elim (Option-cases (lookup id s.rules)) [
  | inl absent ↦ rw absent (ground (arith, lookup-erase k id s.rules))
  | inr (rs, found) ↦ rw found (ground (arith, lookup-erase k id s.rules))
]

-- The session has the rules of the map.
abbrev pub Has : Session → Map ClientRule → Type 0
Has s m = (k : Text) → rule_at (lookup k s.rules) ≡ lookup k m

Has-if :
    (b : Bool) (s t : Session) (m n : Map ClientRule)
    → (b ≡ true → Has s m)
    → (b ≡ false → Has t n)
    → Has (if b then s else t) (if b then m else n)
Has-if true s t m n yes_case no_case = yes_case refl
Has-if false s t m n yes_case no_case = no_case refl

Has-either :
    (b : Bool) (s t : Session) (m : Map ClientRule) → Has s m → Has t m → Has (if b then s else t) m
Has-either true s t m p q = p
Has-either false s t m p q = q

handle-Has :
    (f : Frame) (s : Session) (m : Map ClientRule)
    → IsGranted f s
    → Has s m
    → Has (Session.handle f s) (hear f m)
unfolding Session.handle hear
handle-Has f s m granted has =
    Has-if (f.typ == frame_register) _ _ _ _
      (λ is k.
        let (ln, at) = granted (ground arith) in
        register-rules f s k at ∙ ground (arith, has k, lookup-insert k f.id (rule_of f) m))
      (λ _.
        Has-if (f.typ == frame_unregister) _ _ _ _
          (λ _ k. unregister-rules f.id s k ∙ ground (arith, has k, lookup-erase k f.id m))
          (λ _. Has-either (f.typ == frame_ping) _ _ _ has has))

serve_written-Has :
    (h : ℕ) (fs : List (ℕ × Frame)) (s : Session)
    → Has s []
    → AllGranted h fs s
    → Has (serve_written h fs s) (heard h fs)
unfolding serve_written heard
serve_written-Has h [] s has granted = has
serve_written-Has h ((j, f) ∷ fs) s has granted =
    let rest = serve_written-Has h fs s has granted.1 in
    Has-if (h == j) _ _ _ _
      (λ same. handle-Has f (serve_written h fs s) (heard h fs) (granted.0 (ground arith)) rest)
      (λ _. rest)

-- Whenever `Run` is in `serve`, after any number of dials, reconnects, frames, and calls of `Add` and
-- `Remove` outside the loops that register a snapshot, the server's session for the connection in
-- use, once it has read all that was written and if the operating system granted each address, has
-- exactly the client's rules, each with the fields that it has at the client.
pub served_lem :
    (addr : Text) (on : Bool) {x : Runner}
    → Steps true (start (record (new_client addr) { on_rule = on })) x
    → x.phase ≡ serving
    → (h : ℕ) → x.client.enc ≡ some h
    → (s : Session) → s.rules ≡ []
    → AllGranted h x.client.sent s
    → (k : Text)
    → rule_at (lookup k (serve_written h x.client.sent s).rules) ≡ lookup k x.client.rules
served_lem addr on {x} steps in_serve h is_some s is_empty granted k =
    let (h', is_some', told) = serving-Registered addr on steps in_serve in
    serve_written-Has h x.client.sent s
      (λ j.
        ap (λ m. rule_at (lookup j m)) is_empty
        ∙ grind (arith, lookup-nil {V = RuleState} j, lookup-nil {V = ClientRule} j))
      granted k
    ∙ ap (λ n. lookup k (heard n x.client.sent)) (grind (arith, is_some, is_some'))
    ∙ told k
