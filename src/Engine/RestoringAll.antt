-- ===== src/Engine/RestoringAll.antt =====
-- internal/engine/engine.go: what `Restore` does with a list of saved rules.
use port_forwarder.Base.{
  ℕ, ◌<◌, ◌≤◌, ◌⊎◌, arith, ◌≡◌, ◌≢◌, refl, sym, ◌∙◌, true, false, Option, none, some, List, [], ◌∷◌,
  ◌++◌, map, Bool-cases, inl, inr, All,
}
use port_forwarder.Base.Int.{max_int}
use port_forwarder.Base.Text.{Text}
use port_forwarder.Base.Map.{Map, lookup}
use port_forwarder.Base.Prog.{
  panics, Ensures, returned, Ensures-bind, Ensures-eq, Ensures-weaken, Ensures-elim,
}
use port_forwarder.Decimal.{format}
use port_forwarder.Net
use port_forwarder.Engine.{unset, Rule, RemoteBackend, Engine, lock, unlock, put_status}
use port_forwarder.Engine.Queries.{is_remote}
use port_forwarder.Engine.Methods.{restore, restore_rule, restore_remote, restore_local}
use port_forwarder.Engine.Soundness.{IsSound}
use port_forwarder.Engine.Reports.{SameRule, IsQuiet}
use port_forwarder.Engine.Restoring.{
  remembered, raised, Restored, restored_status, restore_local_lem, restore_remote_lem,
}

-- The IDs that `Add` could have given out before its counter was above `top`.
abbrev pub IsNumbered : ℕ → Rule → Type 0
IsNumbered top r = (i : ℕ) × (r.id ≡ format i) × (0 < i) × (i < top)

-- Saved rules with such IDs, all different, none of which is taken.
abbrev pub Restorable : ℕ → Map Rule → List Rule → Type 0
Restorable top rules [] = Unit
Restorable top rules (r ∷ rs) =
    IsNumbered top r
    × (lookup r.id rules ≡ none)
    × All (λ x. x.id ≢ r.id) rs
    × Restorable top rules rs

module _ {B : Type 0} (be : RemoteBackend B) where
  restore_rule_remote :
      (r : Rule) (e : Engine B)
      → e.held ≡ false
      → is_remote r ≡ true
      → restore_rule be r e ≡ restore_remote be (put_status unset r) (remembered e r)
  unfolding restore_rule lock unlock
  restore_rule_remote r e free far = rw (free, far)

  restore_rule_local :
      (r : Rule) (e : Engine B)
      → e.held ≡ false
      → is_remote r ≡ false
      → restore_rule be r e ≡ restore_local (put_status unset r) (remembered e r)
  unfolding restore_rule lock unlock
  restore_rule_local r e free is_local = rw (free, is_local)

  module _ {n : ℕ} {e : Engine B} (s : IsSound n e) (r : Rule) (id : IsNumbered max_int r)
      (fresh : lookup r.id e.rules ≡ none) where
    -- One round of `Restore`, for a local rule with a numeric ID that is not in use, on a sound
    -- engine: the rule is back, and has the listener that the operating system gave, or none. It
    -- is shown as failed if there is none; but if there is one, its status is the empty string,
    -- where `Add` would show it as running.
    pub restore_local_rule :
        is_remote r ≡ false
        → Ensures
            (λ _ e'.
              (lookup r.id e'.rules
                ≡ some (put_status (restored_status (Net.listen r.listen e.net).0) r))
              × (lookup r.id e'.lns ≡ (Net.listen r.listen e.net).0))
            (restore_rule be r e)
    restore_local_rule is_local = Ensures-eq (restore_rule_local r e s.free is_local) (
        Ensures-weaken (restore_local_lem s r id.0 id.1 id.2 id.3 fresh is_local)
          (λ _ e' done. (done.mine, done.ln)))

    restore_rule_lem : IsQuiet be → Ensures (λ _ e'. Restored n id.0 r e e') (restore_rule be r e)
    restore_rule_lem quiet = elim (Bool-cases (is_remote r)) [
      | inl far ↦
          Ensures-eq (restore_rule_remote r e s.free far)
            (restore_remote_lem s r id.0 id.1 id.2 id.3 fresh be quiet far)
      | inr is_local ↦ Ensures-eq (restore_rule_local r e s.free is_local) (
          Ensures-weaken (restore_local_lem s r id.0 id.1 id.2 id.3 fresh is_local)
            (λ _ e' done. done.restored))
    ]

  Restorable-keep :
      (top : ℕ) (rules rules' : Map Rule) (id : Text) (rs : List Rule)
      → ((k : Text) → k ≢ id → lookup k rules' ≡ lookup k rules)
      → All (λ x. x.id ≢ id) rs
      → Restorable top rules rs
      → Restorable top rules' rs
  Restorable-keep top rules rules' id [] same apart ok = tt
  Restorable-keep top rules rules' id (r ∷ rs) same apart ok = (
    ok.0,
    same r.id apart.0 ∙ ok.1,
    ok.2,
    Restorable-keep top rules rules' id rs same apart.1 ok.3,
  )

-- Each of the saved rules is there, with the fields that were saved, but for its status and, if it
-- is remote, its address.
abbrev pub AllBack : {B : Type 0} → List Rule → Engine B → Type 0
AllBack rs e = All (λ r. (r' : Rule) × (lookup r.id e.rules ≡ some r') × SameRule r r') rs

-- What is there and has another ID stays.
abbrev pub Stays : {B : Type 0} → List Rule → Engine B → Engine B → Type 0
Stays rs e e' = (k : Text) → All (λ x. k ≢ x.id) rs → lookup k e'.rules ≡ lookup k e.rules

All-flip : (id : Text) (rs : List Rule) → All (λ x. x.id ≢ id) rs → All (λ x. id ≢ x.id) rs
All-flip id [] h = tt
All-flip id (r ∷ rs) h = (λ p. h.0 (sym p), All-flip id rs h.1)

AllBack-cons :
    {B : Type 0} {n i : ℕ} {e e1 : Engine B} (e2 : Engine B) (r : Rule) (rs : List Rule)
    → All (λ x. x.id ≢ r.id) rs
    → Restored n i r e e1
    → Stays rs e1 e2
    → AllBack rs e2
    → AllBack (r ∷ rs) e2
AllBack-cons e2 r rs apart one stays back =
    let (r', found, same) = one.mine in
    ((r', stays r.id (All-flip r.id rs apart) ∙ found, same), back)

Stays-cons :
    {B : Type 0} {n i : ℕ} {e e1 : Engine B} (e2 : Engine B) (r : Rule) (rs : List Rule)
    → Restored n i r e e1
    → Stays rs e1 e2
    → Stays (r ∷ rs) e e2
Stays-cons e2 r rs one stays k h = stays k h.1 ∙ one.others k h.0

below_max : {i top : ℕ} → top ≤ max_int → i < top → i < max_int
below_max small low = omega arith

raised-bound : (n m i top : ℕ) → i < top → (m ≡ raised n i) ⊎ (m ≤ top) → (m ≡ n) ⊎ (m ≤ top)
raised-bound n m i top low h = ground (arith, low, h)

-- `Restore` of saved rules whose IDs are different, are decimals of positive numbers below a bound
-- that is no greater than the largest int, and are not in use, into a sound engine with a quiet
-- backend, returns. The engine is sound again, with its counter as it was, or at most at the bound;
-- each saved rule is there with its ID, type, name, target and credential, and with its address if it
-- is local; every rule with another ID is as before.
pub restore_all :
    {B : Type 0} (be : RemoteBackend B) (rs : List Rule) {n top : ℕ} {e : Engine B}
    → IsQuiet be
    → IsSound n e
    → top ≤ max_int
    → Restorable top e.rules rs
    → Ensures
        (λ _ e'. (m : ℕ) × IsSound m e' × ((m ≡ n) ⊎ (m ≤ top)) × AllBack rs e' × Stays rs e e')
        (restore be (map some rs) e)
unfolding restore
restore_all be [] {n} {e = e} quiet s small ok = returned tt e (n, s, inl refl, tt, λ k h. refl)
restore_all be (r ∷ rs) {n} {top} {e} quiet s small (id, fresh, apart, ok) =
    Ensures-bind _ (restore_rule_lem be s r (id.0, id.1, id.2, below_max small id.3) fresh quiet)
      (λ _ e1 one.
        Ensures-weaken
          (restore_all be rs quiet one.sound small
            (Restorable-keep be top e.rules e1.rules r.id rs one.others apart ok))
          (λ _ e2 (m, sound, bound, back, stays). (
            m,
            sound,
            raised-bound n m id.0 top id.3 bound,
            AllBack-cons e2 r rs apart one stays back,
            Stays-cons e2 r rs one stays,
          )))

-- `Restore` of a list of saved rules as in `restore_all` that has a null behind them panics, for a
-- quiet backend and a sound engine.
restore-null :
    {B : Type 0} (be : RemoteBackend B) (rs : List Rule) (rest : List (Option Rule)) {n : ℕ}
    {e : Engine B}
    → IsQuiet be
    → IsSound n e
    → Restorable max_int e.rules rs
    → restore be (map some rs ++ none ∷ rest) e ≡ panics
unfolding restore
restore-null be [] rest quiet s ok = refl
restore-null be (r ∷ rs) rest {n} {e} quiet s (id, fresh, apart, ok) =
    let (_, e1, ends, one) = Ensures-elim (restore_rule_lem be s r id fresh quiet) in
    rw ends (
      restore-null be rs rest quiet one.sound
        (Restorable-keep be max_int e.rules e1.rules r.id rs one.others apart ok))
