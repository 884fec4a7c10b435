-- ===== src/Engine/Refinement/Adding.antt =====
-- internal/engine/engine.go: `Add` does to the rules what it does to the table.
use port_forwarder.Base.{
  ◌<◌, ◌≡◌, refl, sym, ◌∙◌, ap, true, false, none, some, Option-cases, Bool-cases, inl, inr,
}
use port_forwarder.Base.Int.{max_int}
use port_forwarder.Base.Text.{Text, text_eq}
use port_forwarder.Base.Prog.{Ensures, returned, Ensures-bind}
use port_forwarder.Decimal.{format}
use port_forwarder.Engine.{Rule, RemoteBackend, Engine, put_status, error}
use port_forwarder.Engine.Queries.{is_remote}
use port_forwarder.Engine.Reports.{IsQuiet}
use port_forwarder.Engine.Adding.{made_rule, add_local, shown}
use port_forwarder.Engine.AddingRemote.{add_remote_lem, add_orphan}
use port_forwarder.Engine.Table.{Entry, Table, Op, add_rule, new_entry, apply}
use port_forwarder.Engine.Refinement.{
  IsOf, Implements, call, entries-put, entries-set, IsOf-SameRule, Refines, performed-nil,
}

module _ {B : Type 0} (be : RemoteBackend B) (quiet : IsQuiet be) {t : Table} {e : Engine B}
    (imp : Implements t e) (typ name listen target credential : Text)
    (room : t.next < max_int) where
  abbrev made : Rule
  made = made_rule typ name listen target credential t.next

  abbrev adding : Op
  adding = add_rule typ name listen target credential

  abbrev x : Entry
  x = new_entry typ name listen target credential

  made-IsOf : IsOf made x
  made-IsOf = record {
    typ = refl;
    name = refl;
    target = refl;
    credential = refl;
    listen = λ near. refl;
  }

  add_local-Refines :
      is_remote made ≡ false → Ensures (Refines be (apply adding t) e) (call be adding e)
  unfolding call apply put_status
  add_local-Refines is_local =
      Ensures-bind _ (add_local be typ name listen target credential imp.sound room is_local)
        (λ res e' done. returned _ _ (record {
          answered = ap some done.0;
          implements = record {
            sound = done.1.sound;
            entries =
                entries-set e' (format t.next) imp (some (put_status (shown res.1) made)) (some x)
                  (record {
                    typ = refl;
                    name = refl;
                    target = refl;
                    credential = refl;
                    listen = λ near. refl;
                  })
                  done.1.rules;
          };
          remote = rw is_local (done.1.remote ∙ sym (performed-nil be e.remote));
        }))

  add_orphan-Refines :
      is_remote made ≡ true
      → e.remote ≡ none
      → Ensures (Refines be (apply adding t) e) (call be adding e)
  unfolding call apply put_status
  add_orphan-Refines far is_nil =
      Ensures-bind _ (add_orphan be typ name listen target credential imp.sound room far is_nil)
        (λ res e' done. returned _ _ (record {
          answered = ap some done.0;
          implements = record {
            sound = done.2.sound;
            entries =
                entries-set e' (format t.next) imp (some (put_status error made)) (some x)
                  (record {
                    typ = refl;
                    name = refl;
                    target = refl;
                    credential = refl;
                    listen = λ near. refl;
                  })
                  done.2.rules;
          };
          remote = done.2.remote ∙ rw is_nil;
        }))

  add_remote-Refines :
      {b : B}
      → is_remote made ≡ true
      → e.remote ≡ some b
      → Ensures (Refines be (apply adding t) e) (call be adding e)
  unfolding call apply put_status
  add_remote-Refines far is_some =
      Ensures-bind _
        (add_remote_lem be typ name listen target credential imp.sound room far quiet is_some)
        (λ res e' done.
          let (r', found, same) = done.2.mine in
          returned _ _ (record {
            answered = ap some done.0;
            implements = record {
              sound = done.2.sound;
              entries =
                  entries-put e' (format t.next) imp (some x)
                    (rw found (IsOf-SameRule made r' x far made-IsOf same)) done.2.others;
            };
            remote = done.2.remote ∙ rw (is_some, far);
          }))

  pub add-Refines : Ensures (Refines be (apply adding t) e) (call be adding e)
  add-Refines = elim (Bool-cases (is_remote made)) [
    | inr is_local ↦ add_local-Refines is_local
    | inl far ↦ elim (Option-cases e.remote) [
      | inl is_nil ↦ add_orphan-Refines far is_nil
      | inr (b, is_some) ↦ add_remote-Refines far is_some
    ]
  ]
