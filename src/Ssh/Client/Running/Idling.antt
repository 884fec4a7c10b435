-- ===== src/Ssh/Client/Running/Idling.antt =====
-- internal/ssh/client.go: while `Run` dials, the client has no listener.
use port_forwarder.Base.{◌≡◌, refl, ap, ◌∙◌, false, Option, none, some, [], ◌∷◌, arith, nat_eq}
use port_forwarder.Base.Text.{Text, text_eq}
use port_forwarder.Base.Map.{Map, lookup, lookup-nil}
use port_forwarder.Net.{Listener}
use port_forwarder.Ssh.Client.{Client, ClientRule, Error, report, add, remove, fail_all, fail_each}
use port_forwarder.Ssh.Client.Running.{
  Phase, dialling, connecting, subscribing, up, clearing, ended, fail_new,
}

-- While `Run` dials, there is no connection and no listener, and before it forgets a connection that
-- dropped, there is no listener.
abbrev pub Idle : Phase → Client → Type 0
Idle dialling c = (c.lns ≡ []) × (c.conn ≡ false)
Idle clearing c = c.lns ≡ []
Idle connecting c = Unit
Idle (subscribing rs) c = Unit
Idle up c = Unit
Idle ended c = Unit

pub step-Idle :
    (p : Phase) (c c' : Client)
    → (c.lns ≡ [] → c'.lns ≡ [])
    → (c.conn ≡ false → c'.conn ≡ false)
    → Idle p c
    → Idle p c'
step-Idle dialling c c' lns conn (empty, down) = (lns empty, conn down)
step-Idle clearing c c' lns conn empty = lns empty
step-Idle connecting c c' lns conn idle = tt
step-Idle (subscribing rs) c c' lns conn idle = tt
step-Idle up c c' lns conn idle = tt
step-Idle ended c c' lns conn idle = tt

pub fail_each-lns :
    (m : Map ClientRule) (err : Error) (c : Client)
    → ((fail_each m err c).lns ≡ c.lns) × ((fail_each m err c).conn ≡ c.conn)
fail_each-lns [] err c = (refl, refl)
fail_each-lns ((_, r) ∷ m) err c =
    let (lns, conn) = fail_each-lns m err (report r.id r.listen (some err) c) in
    (lns ∙ ground arith, conn ∙ ground arith)

pub fail_all-Idle : (p : Phase) (err : Error) (c : Client) → Idle p c → Idle p (fail_all err c)
unfolding fail_all
fail_all-Idle p err c idle =
    let (lns, conn) = fail_each-lns c.pending err c in
    step-Idle p c _ (λ empty. lns ∙ empty) (λ down. conn ∙ down) idle

pub add-Idle :
    (p : Phase) (r : ClientRule) (c : Client) → c.conn ≡ false → Idle p c → Idle p (add r c)
unfolding add
add-Idle p r c down idle =
    step-Idle p c _ (λ empty. ground (arith, empty, down)) (λ _. ground (arith, down)) idle

pub remove-Idle : (p : Phase) (id : Text) (c : Client) → Idle p c → Idle p (remove id c)
unfolding remove
remove-Idle p id c idle =
    step-Idle p c _
      (λ empty.
        let absent : lookup id c.lns ≡ none = ap (lookup id) empty ∙ lookup-nil id in
        rw absent empty)
      (λ down. ground (arith, down)) idle

pub fail_new-Idle :
    (p : Phase) (r : ClientRule) (o : Option Listener) (c : Client)
    → Idle p c
    → Idle p (fail_new r o c)
fail_new-Idle p r none c idle =
    step-Idle p c _ (λ empty. ground (arith, empty)) (λ down. ground (arith, down)) idle
fail_new-Idle p r (some ln) c idle = idle
