-- ===== src/Engine/Rebinding/Returning.antt =====
-- internal/engine/engine.go: `Restart` returns when every local rule gets its address.
use port_forwarder.Base.{
  ℕ, ◌≡◌, ◌≢◌, refl, sym, ◌∙◌, ap, ◌⊎◌, inl, inr, true, false, none, some, [], ◌∷◌, arith,
  Bool-cases,
}
use port_forwarder.Base.Text.{Text, text_eq}
use port_forwarder.Base.Map.{Map, lookup, lookup-cons, NodupKeys, Entries, Entries-weaken}
use port_forwarder.Base.Prog.{
  Outcome, returns, hangs, Ensures, returned, Ensures-bind, Ensures-step, Ensures-elim, Ensures-at,
}
use port_forwarder.Engine.{Rule, Engine}
use port_forwarder.Engine.Queries.{is_remote, restart, restart_rule, restart_loop}
use port_forwarder.Engine.Steps.{map_option, lock_free, unlock_held}
use port_forwarder.Engine.Soundness.{Inv, IsSound, Inv-held}
use port_forwarder.Engine.Restarting.{
  refreshed, Round, Current, Current-Round, restart_rule_lem, Current-all, restart_lem,
}
use port_forwarder.Engine.Rebinding.{CanBind, Rebound, restart_rule-Rebound, CanBind-Rebound}

-- Each local rule can be bound, and no two of them have the same address.
pub record Bindable (m : Map Rule) {B : Type 0} (e : Engine B) : Type 0 where
  pub can : (k : Text) (r : Rule) → lookup k m ≡ some r → is_remote r ≡ false → CanBind r e
  pub apart :
      (j k : Text) (q r : Rule)
      → lookup j m ≡ some q
      → lookup k m ≡ some r
      → j ≢ k
      → is_remote q ≡ false
      → is_remote r ≡ false
      → q.listen ≢ r.listen

in_tail :
    (j k : Text) (x r : Rule) (m : Map Rule)
    → lookup j m ≡ none
    → lookup k m ≡ some r
    → (k ≢ j) × (lookup k ((j, x) ∷ m) ≡ some r)
in_tail j k x r m once at = (
  λ same. grind (arith, ap (λ i. lookup i m) same, at, once),
  ground (arith, lookup-cons k j x m, once, at),
)

Bindable-tail :
    {B : Type 0} {e : Engine B} (j : Text) (x : Rule) (m : Map Rule)
    → lookup j m ≡ none
    → Bindable ((j, x) ∷ m) e
    → Bindable m e
Bindable-tail j x m once all = record {
  can = λ k r at. all.can k r (in_tail j k x r m once at).1;
  apart = λ i k q r at at'.
      all.apart i k q r (in_tail j i x q m once at).1 (in_tail j k x r m once at').1;
}

far_round :
    {B : Type 0} (r : Rule) (e : Engine B)
    → is_remote r ≡ true
    → Ensures (λ _ e'. e' ≡ e) (restart_rule r e)
unfolding restart_rule
far_round r e far = rw far (returned tt e refl)

-- The rules behind a local one can still be bound.
Bindable-Rebound :
    {B : Type 0} {e e1 : Engine B} (j : Text) (x : Rule) (m : Map Rule)
    → x.id ≡ j
    → is_remote x ≡ false
    → lookup j m ≡ none
    → ((k : Text) (r : Rule) → lookup k m ≡ some r → r.id ≡ k)
    → Rebound x e e1
    → Bindable ((j, x) ∷ m) e
    → Bindable m e1
Bindable-Rebound j x m named is_local once keyed reb all = record {
  can = λ k r at local.
      let (other, there) = in_tail j k x r m once at in
      CanBind-Rebound x r reb (λ same. other (sym (keyed k r at) ∙ same ∙ named))
        (all.apart j k x r (ground (arith, lookup-cons j j x m)) there (λ p. other (sym p)) is_local
          local)
        (all.can k r there local);
  apart = (Bindable-tail j x m once all).apart;
}

entry_at :
    {B : Type 0} (e : Engine B) (m : Map Rule)
    → Entries (Current e) m
    → (k : Text) (r : Rule) → lookup k m ≡ some r
    → r.id ≡ k
unfolding lookup
entry_at e [] cur k r at = absurd (grind (arith, at))
entry_at e ((j, x) ∷ m) cur k r at = elim (text_eq.dec k j) [
  | yes mine ↦
      let same : some x ≡ some r = sym (ground (arith, lookup-cons k j x m, mine)) ∙ at in
      grind (arith, same, mine, cur.0.1)
  | no other ↦ entry_at e m cur.1 k r (ground (arith, lookup-cons k j x m))
]

same_kind : (r own : Rule) → own.typ ≡ r.typ → is_remote own ≡ is_remote r
same_kind r own same = rw same refl

Round-of :
    {B : Type 0} {n : ℕ} {r : Rule} {e e1 : Engine B}
    → (restart_rule r e ≡ hangs) ⊎ Ensures (λ _ e'. Round n r e e') (restart_rule r e)
    → restart_rule r e ≡ returns tt e1
    → Round n r e e1
Round-of {e1 = e1} (inl stuck) ends = absurd (grind (arith, stuck, ends))
Round-of {e1 = e1} (inr done) ends = Ensures-at tt e1 done ends

restart_loop_returns :
    {B : Type 0} {n : ℕ} (m : Map Rule) (e : Engine B)
    → Inv n e
    → e.held ≡ true
    → NodupKeys m
    → Entries (Current e) m
    → Bindable m e
    → Ensures (λ _ e'. e'.held ≡ true) (restart_loop m e)
unfolding restart_loop
restart_loop_returns [] e inv held u cur all = returned tt e held
restart_loop_returns {n = n} ((k, r) ∷ m) e inv held u cur all =
    let (own, named, at, same) = cur.0 in
    let found : lookup r.id e.rules ≡ some own = ap (λ j. lookup j e.rules) named ∙ at in
    elim (Bool-cases (is_remote r)) [
      | inl far ↦
          let (_, e1, ends, still) = Ensures-elim (far_round r e far) in
          Ensures-step _ ends
            (rw still (restart_loop_returns m e inv held u.1 cur.1 (Bindable-tail k r m u.0 all)))
      | inr is_local ↦
          let mine = all.can k r (ground (arith, lookup-cons k k r m)) is_local in
          let (_, e1, ends, reb) = Ensures-elim (
            restart_rule-Rebound inv r own found is_local (same_kind r own same ∙ is_local) mine) in
          let round = Round-of (restart_rule_lem e inv held r own found same) ends in
          Ensures-step _ ends (
            restart_loop_returns m e1 round.inv round.held u.1
              (Entries-weaken (Current e) (Current e1) m (λ j x _ c. Current-Round round j x c) u.1
                cur.1)
              (Bindable-Rebound k r m named is_local u.0 (entry_at e m cur.1) reb all))
    ]

no_hang :
    {S : Type 0} {P : Unit {0} → S → Type 0} {o : Outcome S (Unit {0})} → Ensures P o → o ≢ hangs
no_hang done stuck = let (a, s, ends, _) = Ensures-elim done in grind (arith, ends, stuck)

restart_ends :
    {B : Type 0} {n : ℕ} {e : Engine B}
    → IsSound n e
    → Bindable e.rules e
    → Ensures (λ _ _. Unit {0}) (restart e)
unfolding restart
restart_ends {e = e} s all = rw (lock_free e s.free) (
    Ensures-bind _
      (restart_loop_returns e.rules (record e { held = true }) (Inv-held true s.inv) refl
        s.inv.numbering.nodup (Current-all s e.rules s.inv.numbering.nodup (λ k r p. p))
        (record {
          can = λ k r at local. record {
            free = (all.can k r at local).free;
            binds = (all.can k r at local).binds;
          };
          apart = all.apart;
        }))
      (λ _ e2 held. rw (unlock_held e2 held) (returned tt _ tt)))

-- `Restart` returns, when nobody but a local rule itself listens on its address, no two local rules
-- have the same one, and the operating system binds each of them at every call. Then the engine is
-- sound again, every local rule is shown as running, which in a sound engine means that it has an
-- open listener, and every remote rule is as it was.
pub restart_returns_lem :
    {B : Type 0} {n : ℕ} {e : Engine B}
    → IsSound n e
    → Bindable e.rules e
    → Ensures
        (λ _ e'.
          IsSound n e' × ((k : Text) → lookup k e'.rules ≡ map_option refreshed (lookup k e.rules)))
        (restart e)
restart_returns_lem {e = e} s all = elim (restart_lem s) [
  | inl stuck ↦ absurd (no_hang (restart_ends s all) stuck)
  | inr done ↦ done
]
