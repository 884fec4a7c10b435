-- ===== src/Engine/Refinement/Updating.antt =====
-- internal/engine/engine.go: `Update` does to the rules what it does to the table.
use port_forwarder.Base.{
  ◌≡◌, refl, sym, ◌∙◌, true, false, Option, none, some, Option-cases, Bool-cases, inl, inr,
}
use port_forwarder.Base.Text.{Text, text_eq}
use port_forwarder.Base.Map.{lookup}
use port_forwarder.Base.Prog.{Ensures, returned, Ensures-step, Ensures-bind}
use port_forwarder.Engine.{Rule, Error, RemoteBackend, Engine, put_status}
use port_forwarder.Engine.Queries.{is_remote}
use port_forwarder.Engine.Methods.{put_local, put_remote}
use port_forwarder.Engine.Reports.{IsQuiet}
use port_forwarder.Engine.Adding.{shown}
use port_forwarder.Engine.Updating.{update_local, update_absent}
use port_forwarder.Engine.UpdatingRemote.{update_remote}
use port_forwarder.Engine.UpdatingRemote.Orphan.{update_orphan}
use port_forwarder.Engine.Table.{
  Entry, Table, Op, update_rule, renewed, handed, Effect, update_entry, apply,
}
use port_forwarder.Engine.Refinement.{
  IsOf, Shows-some, Shows-none, Implements, call, entries-put, entries-set, IsOf-SameRule, Refines,
  performed-nil, unlocked,
}

module _ {B : Type 0} (be : RemoteBackend B) (quiet : IsQuiet be) {t : Table} {e : Engine B}
    (imp : Implements t e) (id name listen target credential : Text) where
  abbrev updating : Op
  updating = update_rule id name listen target credential

  module _ {r : Rule} {x : Entry} (found : lookup id e.rules ≡ some r) (is : IsOf r x) where
    abbrev y : Entry
    y = renewed name listen target credential x

    abbrev effect : Effect
    effect = update_entry id name listen target credential (some x) t

    local-IsOf :
        (err : Option Error)
        → is_remote r ≡ false
        → IsOf (put_status (shown err) (put_local name listen target r)) y
    unfolding put_status put_local
    local-IsOf err is_local = record {
      typ = is.typ;
      name = refl;
      target = refl;
      credential = rw (← is.typ, is_local) is.credential;
      listen = λ near. refl;
    }

    remote-IsOf : is_remote r ≡ true → IsOf (put_remote name listen target credential r) y
    unfolding put_remote
    remote-IsOf far = record {
      typ = is.typ;
      name = refl;
      target = refl;
      credential = rw (← is.typ, far);
      listen = λ near. refl;
    }

    handed-put_remote :
        is_remote r ≡ true → put_remote name listen target credential r ≡ handed id y
    unfolding put_remote
    handed-put_remote far = rw (imp.sound.inv.numbering.keyed id r found, ← is.typ, far)

    put_remote-far :
        is_remote r ≡ true → is_remote (put_remote name listen target credential r) ≡ true
    unfolding put_remote
    put_remote-far far = far

    update_local-Refines : is_remote r ≡ false → Ensures (Refines be effect e) (call be updating e)
    unfolding call
    update_local-Refines is_local =
        Ensures-bind _ (update_local be name listen target credential imp.sound id found is_local)
          (λ res e' done. returned _ _ (record {
            answered = done.0;
            implements = record {
              sound = done.1.sound;
              entries = entries-set e' id imp _ (some y) (local-IsOf res.1 is_local) done.1.rules;
            };
            remote = rw (← is.typ, is_local) (done.1.remote ∙ sym (performed-nil be e.remote));
          }))

    update_orphan-Refines :
        is_remote r ≡ true → e.remote ≡ none → Ensures (Refines be effect e) (call be updating e)
    unfolding call
    update_orphan-Refines far is_nil =
        Ensures-bind _
          (update_orphan be name listen target credential imp.sound id found far is_nil)
          (λ res e' done. returned _ _ (record {
            answered = done.0;
            implements = record {
              sound = done.1;
              entries = entries-set e' id imp _ (some y) (remote-IsOf far) done.3;
            };
            remote = done.2 ∙ rw is_nil;
          }))

    update_remote-Refines :
        {b : B}
        → is_remote r ≡ true
        → e.remote ≡ some b
        → Ensures (Refines be effect e) (call be updating e)
    unfolding call
    update_remote-Refines far is_some =
        Ensures-bind _
          (update_remote be name listen target credential imp.sound id found far quiet is_some)
          (λ res e' done.
            let (r', at, same) = done.2.mine in
            returned _ _ (record {
              answered = done.0;
              implements = record {
                sound = done.2.sound;
                entries =
                    entries-put e' id imp (some y)
                      (rw at (IsOf-SameRule _ r' y (put_remote-far far) (remote-IsOf far) same))
                      done.2.others;
              };
              remote = done.2.remote ∙ rw (handed-put_remote far) (rw (is_some, ← is.typ, far));
            }))

    update_found-Refines : Ensures (Refines be effect e) (call be updating e)
    update_found-Refines = elim (Bool-cases (is_remote r)) [
      | inr is_local ↦ update_local-Refines is_local
      | inl far ↦ elim (Option-cases e.remote) [
        | inl is_nil ↦ update_orphan-Refines far is_nil
        | inr (b, is_some) ↦ update_remote-Refines far is_some
      ]
    ]

  pub update-Refines : Ensures (Refines be (apply updating t) e) (call be updating e)
  unfolding call apply
  update-Refines = elim (Option-cases (lookup id e.rules)) [
    | inl absent ↦ rw (Shows-none (t.entries id) (rw absent at (imp.entries id))) (
        Ensures-step _ (update_absent be name listen target credential e id imp.sound.free absent) (
          returned _ _ (record {
            answered = refl;
            implements = unlocked imp;
            remote = sym (performed-nil be e.remote);
          })))
    | inr (r, found) ↦
        let (x, is_x, is) = Shows-some r (t.entries id) (rw found at (imp.entries id)) in
        rw is_x (update_found-Refines found is)
  ]
