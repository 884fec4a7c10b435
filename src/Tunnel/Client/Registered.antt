-- ===== src/Tunnel/Client/Registered.antt =====
-- internal/tunnel/client.go: after each reconnect the server is told of the rules that the client
-- has.
use port_forwarder.Base.{
  ℕ, suc, ◌<◌, ◌≡◌, refl, sym, ◌∙◌, Bool, true, false, Option, none, some, List, [], ◌∷◌, arith,
  ◌==◌, if◌then◌else◌, Option-cases, ◌⊎◌, inl, inr,
}
use port_forwarder.Base.Text.{Text, text_eq}
use port_forwarder.Base.Map.{
  Map, lookup, insert, erase, lookup-nil, lookup-insert, lookup-erase, NodupKeys, insert-NodupKeys,
  erase-NodupKeys,
}
use port_forwarder.Tunnel.Protocol.{Frame, frame_open, frame_error}
use port_forwarder.Tunnel.Client.{
  ClientRule, Client, new_client, register_frame, unregister_frame, encode, send, add, remove,
  values, report_error, handle, connect, hang_up, Phase, dialling, waiting, connected, registering,
  serving, ended, Runner, start, IsCalm, Step, Steps, dial_fails, delay_ends, connects,
  takes_snapshot, registers, serves, reads, drops, cancels_dial, cancels_delay, adds, removes, done,
  next, RuleReport, report_rule,
}
use port_forwarder.Tunnel.Client.Heard.{
  heard, heard-register, heard-unregister, AllBelow, heard-fresh, AllBelow-weaken, insert_all,
  IsKeyed, lookup-insert_all,
}

insert-IsKeyed : (r : ClientRule) (m : Map ClientRule) → IsKeyed m → IsKeyed (insert r.id r m)
unfolding insert
insert-IsKeyed r [] keyed = (refl, tt)
insert-IsKeyed r ((j, w) ∷ m) keyed = ground (arith, insert-IsKeyed r m keyed.1)

erase-IsKeyed : (k : Text) (m : Map ClientRule) → IsKeyed m → IsKeyed (erase k m)
unfolding erase
erase-IsKeyed k [] keyed = tt
erase-IsKeyed k ((j, w) ∷ m) keyed = ground (arith, erase-IsKeyed k m keyed.1)

-- The server's rules against the client's, by where the goroutine of `Run` is.
abbrev pub Agrees : Phase → Map ClientRule → Map ClientRule → Type 0
Agrees connected told rules =
    (k : Text) (r : ClientRule) → lookup k told ≡ some r → lookup k rules ≡ some r
Agrees (registering todo) told rules = (k : Text) → lookup k (insert_all todo told) ≡ lookup k rules
Agrees serving told rules = (k : Text) → lookup k told ≡ lookup k rules
Agrees _ told rules = Unit

abbrev pub is_up : Phase → Bool
is_up dialling = false
is_up waiting = false
is_up ended = false
is_up _ = true

-- With a connection, what was written to it; else there is no encoder.
abbrev pub Linked : Phase → Option ℕ → Client → Type 0
Linked p none c = is_up p ≡ false
Linked p (some h) c = (is_up p ≡ true) × (h < c.dialled) × Agrees p (heard h c.sent) c.rules

pub record Inv (p : Phase) (c : Client) : Type 0 where
  pub nodup : NodupKeys c.rules
  pub keyed : IsKeyed c.rules
  pub below : AllBelow c.dialled c.sent
  pub both : c.conn ≡ c.enc
  pub linked : Linked p c.enc c

Agrees-insert :
    (p : Phase) (r : ClientRule) (told rules : Map ClientRule)
    → IsCalm p
    → Agrees p told rules
    → Agrees p (insert r.id r told) (insert r.id r rules)
Agrees-insert dialling r told rules calm a = tt
Agrees-insert waiting r told rules calm a = tt
Agrees-insert ended r told rules calm a = tt
Agrees-insert connected r told rules calm a =
    λ k w at. ground (arith, lookup-insert k r.id r told, lookup-insert k r.id r rules, a k w)
Agrees-insert (registering []) r told rules calm a =
    λ k. ground (arith, lookup-insert k r.id r told, lookup-insert k r.id r rules, a k)
Agrees-insert (registering (_ ∷ _)) r told rules calm a = absurd calm
Agrees-insert serving r told rules calm a =
    λ k. ground (arith, lookup-insert k r.id r told, lookup-insert k r.id r rules, a k)

Agrees-erase :
    (p : Phase) (id : Text) (told rules : Map ClientRule)
    → IsCalm p
    → Agrees p told rules
    → Agrees p (erase id told) (erase id rules)
Agrees-erase dialling id told rules calm a = tt
Agrees-erase waiting id told rules calm a = tt
Agrees-erase ended id told rules calm a = tt
Agrees-erase connected id told rules calm a =
    λ k w at. ground (arith, lookup-erase k id told, lookup-erase k id rules, a k w)
Agrees-erase (registering []) id told rules calm a =
    λ k. ground (arith, lookup-erase k id told, lookup-erase k id rules, a k)
Agrees-erase (registering (_ ∷ _)) id told rules calm a = absurd calm
Agrees-erase serving id told rules calm a =
    λ k. ground (arith, lookup-erase k id told, lookup-erase k id rules, a k)

-- A frame is written when the rules change, or when `Run` moves on.
module _ (p q : Phase) (c : Client) (rules : Map ClientRule) (f : Frame)
    (effect : Map ClientRule → Map ClientRule)
    (is_heard : (h : ℕ) (fs : List (ℕ × Frame)) → heard h ((h, f) ∷ fs) ≡ effect (heard h fs))
    (same : is_up q ≡ is_up p) (nodup : NodupKeys rules) (keyed : IsKeyed rules)
    (agrees : (told : Map ClientRule) → Agrees p told c.rules → Agrees q (effect told) rules)
    (s : Inv p c) where
  encode-Inv : (o : Option ℕ) → c.enc ≡ o → Inv q (encode o f (record c { rules = rules }))
  encode-Inv none is_nil = record {
    nodup = nodup;
    keyed = keyed;
    below = s.below;
    both = s.both;
    linked = rw (is_nil, same) (rw is_nil at s.linked);
  }
  encode-Inv (some h) is_some =
      let (up, less, a) = rw is_some at s.linked in
      record {
        nodup = nodup;
        keyed = keyed;
        below = (less, s.below);
        both = s.both;
        linked = rw is_some (same ∙ up, less, rw (is_heard h c.sent) (agrees (heard h c.sent) a));
      }

module _ {p : Phase} {c : Client} (s : Inv p c) where
  add-Inv : (r : ClientRule) → IsCalm p → Inv p (add r c)
  unfolding add
  add-Inv r calm =
      encode-Inv p p c (insert r.id r c.rules) (register_frame r) (insert r.id r)
        (λ h fs. heard-register h fs r) refl (insert-NodupKeys r.id r c.rules s.nodup)
        (insert-IsKeyed r c.rules s.keyed) (λ told a. Agrees-insert p r told c.rules calm a) s c.enc
        refl

  remove-Inv : (id : Text) → IsCalm p → Inv p (remove id c)
  unfolding remove
  remove-Inv id calm =
      encode-Inv p p c (erase id c.rules) (unregister_frame id) (erase id)
        (λ h fs. heard-unregister h fs id) refl (erase-NodupKeys id c.rules s.nodup)
        (erase-IsKeyed id c.rules s.keyed) (λ told a. Agrees-erase p id told c.rules calm a) s c.enc
        refl

register-Inv :
    (c : Client) (r : ClientRule) (rs : List ClientRule)
    → Inv (registering (r ∷ rs)) c
    → Inv (registering rs) (send (register_frame r) c)
register-Inv c r rs s =
    encode-Inv (registering (r ∷ rs)) (registering rs) c c.rules (register_frame r) (insert r.id r)
      (λ h fs. heard-register h fs r) refl s.nodup s.keyed (λ told a. a) s c.enc refl

-- The goroutine moves on, and nothing is written.
module _ {p : Phase} (q : Phase) {c : Client} (s : Inv p c) where
  move-Inv :
      is_up q ≡ is_up p
      → ((told : Map ClientRule) → Agrees p told c.rules → Agrees q told c.rules)
      → Inv q c
  move-Inv same agrees = record {
    nodup = s.nodup;
    keyed = s.keyed;
    below = s.below;
    both = s.both;
    linked = elim (Option-cases c.enc) [
      | inl is_nil ↦ rw (is_nil, same) (rw is_nil at s.linked)
      | inr (h, is_some) ↦
          let (up, less, a) = rw is_some at s.linked in
          rw is_some (same ∙ up, less, agrees (heard h c.sent) a)
    ];
  }

connect-Inv : (c : Client) → Inv dialling c → Inv connected (connect c)
unfolding connect
connect-Inv c s = record {
  nodup = s.nodup;
  keyed = s.keyed;
  below = AllBelow-weaken c.dialled (suc c.dialled) c.sent (omega arith) s.below;
  both = refl;
  linked = (
    refl,
    omega arith,
    λ k r at.
        absurd
          (ground (arith, heard-fresh c.dialled c.sent s.below, lookup-nil {V = ClientRule} k)),
  );
}

snapshot-Inv : (c : Client) → Inv connected c → Inv (registering (values c.rules)) c
snapshot-Inv c s =
    move-Inv (registering (values c.rules)) s refl
      (λ told a k. snapshot_agrees told k (a k) (Option-cases (lookup k told)))
  where
    snapshot_agrees :
        (told : Map ClientRule) (k : Text)
        → ((r : ClientRule) → lookup k told ≡ some r → lookup k c.rules ≡ some r)
        → (lookup k told ≡ none) ⊎ ((r : ClientRule) × (lookup k told ≡ some r))
        → lookup k (insert_all (values c.rules) told) ≡ lookup k c.rules
    snapshot_agrees told k a (inl absent) =
        ground (arith, lookup-insert_all c.rules told k s.nodup s.keyed)
    snapshot_agrees told k a (inr (r, found)) =
        ground (arith, lookup-insert_all c.rules told k s.nodup s.keyed, a r found)

Inv-if : {p : Phase} {c d : Client} (b : Bool) → Inv p c → Inv p d → Inv p (if b then c else d)
Inv-if true s t = s
Inv-if false s t = t

module _ {p : Phase} {c : Client} (s : Inv p c) where
  Inv-opening : (fs : List Frame) → Inv p (record c { opening = fs })
  Inv-opening fs = record {
    nodup = s.nodup;
    keyed = s.keyed;
    below = s.below;
    both = s.both;
    linked = elim (Option-cases c.enc) [
      | inl is_nil ↦ rw is_nil (rw is_nil at s.linked)
      | inr (h, is_some) ↦ rw is_some (rw is_some at s.linked)
    ];
  }

  Inv-reports : (reports : List RuleReport) → Inv p (record c { reports = reports })
  Inv-reports reports = record {
    nodup = s.nodup;
    keyed = s.keyed;
    below = s.below;
    both = s.both;
    linked = elim (Option-cases c.enc) [
      | inl is_nil ↦ rw is_nil (rw is_nil at s.linked)
      | inr (h, is_some) ↦ rw is_some (rw is_some at s.linked)
    ];
  }

  report_rule-Inv : (r : ClientRule) (err : Option Text) → Inv p (report_rule r err c)
  report_rule-Inv r err = Inv-if c.on_rule (Inv-reports _) s

  report_error-Inv : (f : Frame) → Inv p (report_error f c)
  unfolding report_error
  report_error-Inv f = elim (Option-cases (lookup f.id c.rules)) [
    | inl absent ↦ rw absent s
    | inr (r, found) ↦ rw found (report_rule-Inv r (some f.message))
  ]

  handle-Inv : (f : Frame) → Inv p (handle f c)
  unfolding handle
  handle-Inv f =
      Inv-if (f.typ == frame_open) (Inv-opening _)
        (Inv-if (f.typ == frame_error) (report_error-Inv f) s)

serving-ne-nil : (c : Client) → c.enc ≡ none → ¬ Inv serving c
serving-ne-nil c is_nil s = absurd (grind (arith, rw is_nil at s.linked))

hang_up-Inv : (c : Client) → Inv serving c → Inv dialling (hang_up c)
unfolding hang_up
hang_up-Inv c s = elim (Option-cases c.conn) [
  | inl is_nil ↦ absurd (serving-ne-nil c (sym s.both ∙ is_nil) s)
  | inr (h, is_some) ↦
      rw is_some
        (record { nodup = s.nodup; keyed = s.keyed; below = s.below; both = refl; linked = refl })
]

after-Inv : {x y : Runner} → Step true x y → Inv x.phase x.client → Inv y.phase y.client
after-Inv (dial_fails c d ds) s = move-Inv waiting s refl (λ told a. tt)
after-Inv (delay_ends c d ds) s = move-Inv dialling s refl (λ told a. tt)
after-Inv (connects c d ds) s = connect-Inv c s
after-Inv (takes_snapshot c d ds) s = snapshot-Inv c s
after-Inv (registers c r rs d ds) s = register-Inv c r rs s
after-Inv (serves c d ds) s = move-Inv serving s refl (λ told a. a)
after-Inv (reads f c d ds) s = handle-Inv s f
after-Inv (drops c d ds) s = hang_up-Inv c s
after-Inv (cancels_dial c d ds) s = move-Inv ended s refl (λ told a. tt)
after-Inv (cancels_delay c d ds) s = move-Inv ended s refl (λ told a. tt)
after-Inv (adds r x calm) s = add-Inv s r (calm refl)
after-Inv (removes id x calm) s = remove-Inv s id (calm refl)

steps-Inv : {x y : Runner} → Steps true x y → Inv x.phase x.client → Inv y.phase y.client
steps-Inv (done x) s = s
steps-Inv (next x step steps) s = steps-Inv steps (after-Inv step s)

start-Inv : (addr : Text) (on : Bool) → Inv dialling (record (new_client addr) { on_rule = on })
unfolding new_client
start-Inv addr on = record { nodup = tt; keyed = tt; below = tt; both = refl; linked = refl }

-- todo
pub serving-Registered :
    (addr : Text) (on : Bool) {x : Runner}
    → Steps true (start (record (new_client addr) { on_rule = on })) x
    → x.phase ≡ serving
    → (h : ℕ) × (x.client.enc ≡ some h)
      × ((k : Text) → lookup k (heard h x.client.sent) ≡ lookup k x.client.rules)
unfolding start
serving-Registered addr on {x} steps in_serve =
    of_Inv x.client (rw in_serve at (steps-Inv steps (start-Inv addr on)))
  where
    of_Inv :
        (c : Client)
        → Inv serving c
        → (h : ℕ) × (c.enc ≡ some h) × ((k : Text) → lookup k (heard h c.sent) ≡ lookup k c.rules)
    of_Inv c s = elim (Option-cases c.enc) [
      | inl is_nil ↦ absurd (serving-ne-nil c is_nil s)
      | inr (h, is_some) ↦ (h, is_some, (rw is_some at s.linked).2)
    ]
