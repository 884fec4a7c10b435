-- ===== src/Engine/Removing.antt =====
-- internal/engine/engine.go: what `Remove` does to a sound engine.
use port_forwarder.Base.{
  ℕ, ◌≡◌, ◌≢◌, refl, sym, ◌∙◌, true, false, Option, none, some, arith, ◌==◌, if◌then◌else◌,
  Option-cases, Bool-cases, inl, inr,
}
use port_forwarder.Base.Text.{Text, text_eq}
use port_forwarder.Base.Map.{lookup, erase, lookup-erase}
use port_forwarder.Base.Prog.{
  Prog, returns, pure, modify, ◌>>=◌, ◌>>◌, Ensures, returned, Ensures-step, Ensures-bind,
  Ensures-eq,
}
use port_forwarder.Engine.{
  Rule, Error, rule_not_found, RemoteBackend, Engine, lock, unlock, stop_locked,
}
use port_forwarder.Engine.Queries.{is_remote}
use port_forwarder.Engine.Methods.{remove, call_remove}
use port_forwarder.Engine.Numbering.{Numbering-erase}
use port_forwarder.Engine.Steps.{lock_free, unlock_held}
use port_forwarder.Engine.Soundness.{Fits-of, Inv, IsSound, Inv-held, Inv-remote}
use port_forwarder.Engine.Stopping.{net_without, stop_locked-Stopped}
use port_forwarder.Engine.Reports.{IsQuiet, told, call_remove-told}

pub record Removed {B : Type 0} (be : RemoteBackend B) (n : ℕ) (id : Text) (r : Rule)
    (e e' : Engine B) : Type 0 where
  pub sound : IsSound n e'
  pub rules : (k : Text) → lookup k e'.rules ≡ (if k == id then none else lookup k e.rules)
  pub lns : (k : Text) → lookup k e'.lns ≡ (if k == id then none else lookup k e.lns)
  pub net : e'.net ≡ net_without (lookup id e.lns) e.net
  pub remote : e'.remote ≡ (if is_remote r then told be id e.remote else e.remote)

module _ {B : Type 0} {n : ℕ} {e : Engine B} (s : Inv n e) where
  -- The rule goes from the map, once it has no listener.
  Inv-erase : (id : Text) → lookup id e.lns ≡ none → Inv n (record e { rules = erase id e.rules })
  Inv-erase id absent = record {
    numbering = Numbering-erase s.numbering id;
    sockets = s.sockets;
    registry = λ k. elim (text_eq.dec k id) [
      | yes same ↦ Fits-of none none (ground (arith, lookup-erase k id e.rules)) (rw same absent) tt
      | no other ↦
          Fits-of (lookup k e.rules) (lookup k e.lns) (ground (arith, lookup-erase k id e.rules))
            refl (s.registry k)
    ];
  }

  remote_has_no_listener :
      (id : Text) {r : Rule}
      → lookup id e.rules ≡ some r
      → is_remote r ≡ true
      → lookup id e.lns ≡ none
  remote_has_no_listener id {r} found far = elim (Option-cases (lookup id e.lns)) [
    | inl absent ↦ absent
    | inr (ln, at) ↦ absurd (grind (arith, far, Fits-of _ _ (sym found) (sym at) (s.registry id)))
  ]

module _ {B : Type 0} (be : RemoteBackend B) where
  -- The part of `Remove` that stops the rule, and the part behind it.
  stop_part : Text → Rule → Prog (Engine B) (Unit {0})
  stop_part id r = if is_remote r then call_remove be id else stop_locked r.id

  forget : Text → Prog (Engine B) (Option Error)
  forget id = do modify (λ e. record e { rules = erase id e.rules }); unlock; pure none

  stop_part_remote :
      (e : Engine B) (id : Text) (r : Rule)
      → is_remote r ≡ true
      → stop_part id r e ≡ call_remove be id e
  unfolding stop_part
  stop_part_remote e id r far = rw far

  remove_present :
      (e : Engine B) (id : Text) {r : Rule}
      → e.held ≡ false
      → lookup id e.rules ≡ some r
      → remove be id e ≡ (stop_part id r >>= λ _. forget id) (record e { held = true })
  unfolding remove stop_part forget
  remove_present e id free found = rw (lock_free e free, found)

  -- Removing what is not there is an error, and changes nothing.
  pub remove_absent :
      (e : Engine B) (id : Text)
      → e.held ≡ false
      → lookup id e.rules ≡ none
      → remove be id e ≡ returns (some rule_not_found) (record e { held = false })
  unfolding remove lock unlock
  remove_absent e id free absent = ground arith

  module _ {n : ℕ} {e : Engine B} (s : IsSound n e) (id : Text) {r : Rule}
      (found : lookup id e.rules ≡ some r) where
    -- With the rule stopped, `Remove` ends as it should.
    forget-Removed :
        (e1 : Engine B)
        → Inv n e1
        → e1.held ≡ true
        → ((k : Text) → k ≢ id → lookup k e1.rules ≡ lookup k e.rules)
        → ((k : Text) → lookup k e1.lns ≡ (if k == id then none else lookup k e.lns))
        → e1.net ≡ net_without (lookup id e.lns) e.net
        → e1.remote ≡ (if is_remote r then told be id e.remote else e.remote)
        → Ensures (λ err e'. (err ≡ none) × Removed be n id r e e') (forget id e1)
    unfolding forget
    forget-Removed e1 inv held others lns net remote =
        Ensures-step _ (unlock_held (record e1 { rules = erase id e1.rules }) held) (
          returned _ _ (
            refl,
            record {
              sound = record {
                free = refl;
                inv = Inv-held false (Inv-erase inv id (ground (arith, lns id)));
              };
              rules = λ k. ground (arith, lookup-erase k id e1.rules, others k);
              lns = lns;
              net = net;
              remote = remote;
            },
          ))

    remove_local-Removed :
        is_remote r ≡ false
        → Ensures (λ err e'. (err ≡ none) × Removed be n id r e e') (remove be id e)
    unfolding stop_part
    remove_local-Removed is_local = Ensures-eq (remove_present e id s.free found) (
        Ensures-bind _
          (Ensures-eq (rw (is_local, s.inv.numbering.keyed id r found))
            (stop_locked-Stopped (Inv-held true s.inv) id found is_local))
          (λ _ e1 p. forget-Removed e1 p.1 p.2 p.0.others p.0.lns p.0.net (rw is_local p.0.remote)))

    remove_remote-Removed :
        IsQuiet be
        → is_remote r ≡ true
        → Ensures (λ err e'. (err ≡ none) × Removed be n id r e e') (remove be id e)
    unfolding stop_part
    remove_remote-Removed quiet far = Ensures-eq (remove_present e id s.free found) (
        Ensures-step _
          (stop_part_remote (record e { held = true }) id r far ∙ call_remove-told be quiet _ id)
          (forget-Removed _ (Inv-remote _ (Inv-held true s.inv)) refl (λ k h. refl) lns_same
            (rw no_listener) (rw far)))
      where
        no_listener : lookup id e.lns ≡ none
        no_listener = remote_has_no_listener s.inv id found far

        lns_same : (k : Text) → lookup k e.lns ≡ (if k == id then none else lookup k e.lns)
        lns_same k = ground (arith, no_listener)

    -- `Remove` of a rule that a sound engine has returns no error, for a quiet backend. The engine
    -- is sound again; the rule and its listener are gone and the socket is closed; a remote rule's
    -- removal has been told to the backend, if there is one, and a local rule's has not. Nothing
    -- else changes.
    pub remove_lem :
        IsQuiet be → Ensures (λ err e'. (err ≡ none) × Removed be n id r e e') (remove be id e)
    remove_lem quiet = elim (Bool-cases (is_remote r)) [
      | inl far ↦ remove_remote-Removed quiet far
      | inr is_local ↦ remove_local-Removed is_local
    ]
