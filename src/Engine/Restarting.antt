-- ===== src/Engine/Restarting.antt =====
-- internal/engine/engine.go: what `Restart` does to a sound engine.
use port_forwarder.Base.{
  ℕ, suc, ◌≡◌, refl, ◌∙◌, ap, ◌⊎◌, inl, inr, true, false, Option, none, some, [], ◌∷◌, arith, ◌==◌,
  if◌then◌else◌, Option-cases, Bool-cases,
}
use port_forwarder.Base.Text.{Text, text_eq}
use port_forwarder.Base.Map.{
  Map, lookup, insert, lookup-insert, lookup-cons, lookup-nil, NodupKeys, Entries, Entries-weaken,
  Entries-lookup,
}
use port_forwarder.Base.Prog.{hangs, Ensures, returned, Ensures-step, Ensures-elim}
use port_forwarder.Net
use port_forwarder.Net.{Listener}
use port_forwarder.Engine.{running, error, Rule, Engine, edit, put_status}
use port_forwarder.Engine.Queries.{is_remote, restart, restart_started, restart_rule, restart_loop}
use port_forwarder.Engine.Steps.{
  lookup-edit, held-edit, map_option, lock_free, unlock_held, start_refused, start_accepted,
  report_error_held,
}
use port_forwarder.Engine.Soundness.{
  Fits, Inv, IsSound, Inv-held, InvBut-of_Inv, Inv-edit, InvBut-started,
}
use port_forwarder.Engine.Stopping.{Stopped, stop_locked-Stopped}

-- What a restart makes of a rule.
abbrev pub refreshed : Rule → Rule
refreshed r = if is_remote r then r else put_status running r

-- One round leaves all other rules alone.
pub record Round (n : ℕ) (r : Rule) {B : Type 0} (e e' : Engine B) : Type 0 where
  pub inv : Inv n e'
  pub held : e'.held ≡ true
  pub rules :
      (k : Text)
      → lookup k e'.rules
        ≡ (if k == r.id then map_option refreshed (lookup k e.rules) else lookup k e.rules)

-- A local rule that is stopped, and then started or not.
module _ {B : Type 0} {n : ℕ} {e : Engine B} (r own : Rule) (found : lookup r.id e.rules ≡ some own)
    (same : own.typ ≡ r.typ) (is_local : is_remote r ≡ false) (e1 : Engine B)
    (st : Stopped r.id own e e1) (inv : Inv n e1) (held : e1.held ≡ true) where
  abbrev started_engine : Listener → Engine B
  started_engine ln = record e1 {
    net = (Net.listen r.listen e1.net).1;
    lns = insert r.id ln e1.lns;
    stop = insert r.id e1.made e1.stop;
    made = suc e1.made;
    loops = record { rule = r.id; ln = ln; stop_ch = e1.made } ∷ e1.loops;
  }

  lookup-running :
      (ln : Listener) (k : Text)
      → lookup k (edit r.id (put_status running) (started_engine ln)).rules
        ≡ (if k == r.id then some (put_status running own) else lookup k e.rules)
  unfolding put_status
  lookup-running ln k =
      let (r', found', which) = st.mine in
      ground (arith, lookup-edit (started_engine ln) k r.id (put_status running), st.others k)

  mine_local : is_remote st.mine.0 ≡ false
  unfolding put_status
  mine_local = ground (arith, st.mine.2)

  started_Round :
      (ln : Listener)
      → (Net.listen r.listen e1.net).0 ≡ some ln
      → Ensures (λ _ e'. Round n r e e') (restart_started r e1)
  unfolding restart_started
  started_Round ln accepted =
      let (r', found', which) = st.mine in
      Ensures-step _ (start_accepted e1 r ln accepted) (
        returned _ _ (record {
          inv =
              Inv-edit (InvBut-started (InvBut-of_Inv r.id inv) r.listen ln _ accepted)
                (put_status running) found' same_id running_Fits;
          held = held-edit _ r.id (put_status running) ∙ held;
          rules = λ k. lookup-running ln k ∙ ground (arith, found);
        }))
    where
      running_Fits :
          Fits (some (put_status running st.mine.0)) (lookup r.id (insert r.id ln e1.lns))
      running_Fits =
          rw (lookup-insert r.id r.id ln e1.lns) (unfold put_status in ground (arith, mine_local))

      same_id : (put_status running st.mine.0).id ≡ st.mine.0.id
      same_id = unfold put_status in refl

  -- The error is reported with the mutex held.
  refused_hangs : (Net.listen r.listen e1.net).0 ≡ none → restart_started r e1 ≡ hangs
  unfolding restart_started
  refused_hangs refused =
      rw (start_refused e1 r refused)
        (report_error_held _ r.id _ (held-edit _ r.id (put_status error) ∙ held))

  restart_started_lem :
      (restart_started r e1 ≡ hangs) ⊎ Ensures (λ _ e'. Round n r e e') (restart_started r e1)
  restart_started_lem = elim (Option-cases (Net.listen r.listen e1.net).0) [
    | inl refused ↦ inl (refused_hangs refused)
    | inr (ln, accepted) ↦ inr (started_Round ln accepted)
  ]

module _ {B : Type 0} {n : ℕ} (e : Engine B) (inv : Inv n e) (held : e.held ≡ true) (r own : Rule)
    (found : lookup r.id e.rules ≡ some own) (same : own.typ ≡ r.typ) where
  remote_Round : is_remote r ≡ true → Round n r e e
  remote_Round far = record {
    inv = inv;
    held = held;
    rules = λ k. ground (arith, found, far, same);
  }

  pub restart_rule_lem :
      (restart_rule r e ≡ hangs) ⊎ Ensures (λ _ e'. Round n r e e') (restart_rule r e)
  unfolding restart_rule
  restart_rule_lem = elim (Bool-cases (is_remote r)) [
    | inl far ↦ inr (rw far (returned tt e (remote_Round far)))
    | inr is_local ↦
        let (_, e1, stops, stopped) =
          Ensures-elim (stop_locked-Stopped inv r.id found (own_local is_local)) in
        elim (restart_started_lem r own found same is_local e1 stopped.0 stopped.1
          (stopped.2 ∙ held)) [
            | inl stuck ↦ inl (rw (is_local, stops) stuck)
            | inr done ↦ inr (rw (is_local, stops) done)
          ]
  ]
    where
      own_local : is_remote r ≡ false → is_remote own ≡ false
      own_local is_local = ground arith

-- Each entry that is left to visit is still that of its rule.
abbrev pub Current : {B : Type 0} → Engine B → Text → Rule → Type 0
Current e k r = (own : Rule) × (r.id ≡ k) × (lookup k e.rules ≡ some own) × (own.typ ≡ r.typ)

abbrev touched : Option Rule → Option Rule → Option Rule
touched none o = o
touched (some _) o = map_option refreshed o

-- The rules of a map have been restarted, and the others left alone.
record Rounds (n : ℕ) (m : Map Rule) {B : Type 0} (e e' : Engine B) : Type 0 where
  inv : Inv n e'
  held : e'.held ≡ true
  rules : (k : Text) → lookup k e'.rules ≡ touched (lookup k m) (lookup k e.rules)

module _ {B : Type 0} {n : ℕ} {e e1 : Engine B} {r : Rule} (round : Round n r e e1) where
  pub Current-Round : (k : Text) (x : Rule) → Current e k x → Current e1 k x
  unfolding put_status
  Current-Round k x (own, named, at, same) = elim (text_eq.dec k r.id) [
    | yes mine ↦ (refreshed own, named, ground (arith, round.rules k), ground arith)
    | no other ↦ (own, named, ground (arith, round.rules k), same)
  ]

  Rounds-cons :
      {e2 : Engine B} (k : Text) (m : Map Rule)
      → r.id ≡ k
      → lookup k m ≡ none
      → Rounds n m e1 e2
      → Rounds n ((k, r) ∷ m) e e2
  Rounds-cons k m named once rest = record {
    inv = rest.inv;
    held = rest.held;
    rules = λ j. ground (arith, rest.rules j, round.rules j, lookup-cons j k r m);
  }

restart_loop_lem :
    {B : Type 0} {n : ℕ} (m : Map Rule) (e : Engine B)
    → Inv n e
    → e.held ≡ true
    → NodupKeys m
    → Entries (Current e) m
    → (restart_loop m e ≡ hangs) ⊎ Ensures (λ _ e'. Rounds n m e e') (restart_loop m e)
unfolding restart_loop
restart_loop_lem [] e inv held u cur = inr (
    returned tt e
      (record { inv = inv; held = held; rules = λ k. ground (arith, lookup-nil {V = Rule} k) }))
restart_loop_lem {n = n} ((k, r) ∷ m) e inv held u cur =
    let (own, named, at, same) = cur.0 in
    elim (restart_rule_lem e inv held r own (ap (λ j. lookup j e.rules) named ∙ at) same) [
      | inl stuck ↦ inl (rw stuck)
      | inr done ↦
          let (_, e1, ends, round) = Ensures-elim done in
          elim (restart_loop_lem m e1 round.inv round.held u.1 (
            Entries-weaken (Current e) (Current e1) m (λ j x _ c. Current-Round round j x c) u.1
              cur.1)) [
                | inl stuck ↦ inl (rw ends stuck)
                | inr rest ↦
                    let (_, e2, ends2, rounds) = Ensures-elim rest in
                    inr
                      (rw ends (rw ends2 (returned tt e2 (Rounds-cons round k m named u.0 rounds))))
              ]
    ]

touched_all : (o : Option Rule) → touched o o ≡ map_option refreshed o
touched_all none = refl
touched_all (some r) = refl

-- Each rule of the map is as it was, before the first round.
pub Current-all :
    {B : Type 0} {n : ℕ} {e : Engine B}
    → IsSound n e
    → (m : Map Rule) → NodupKeys m
    → ((k : Text) (r : Rule) → lookup k m ≡ some r → lookup k e.rules ≡ some r)
    → Entries (Current (record e { held = true })) m
Current-all {e = e} s m u sub =
    Entries-weaken (λ k r. lookup k m ≡ some r) (Current (record e { held = true })) m
      (λ k r at _. (r, s.inv.numbering.keyed k r (sub k r at), sub k r at, refl)) u
      (Entries-lookup m u)

-- `Restart` of a sound engine never panics: it either never returns, or it returns with the engine
-- sound again, with every local rule shown as running, which in a sound engine means that it has
-- an open listener, and with every remote rule as it was.
pub restart_lem :
    {B : Type 0} {n : ℕ} {e : Engine B}
    → IsSound n e
    → (restart e ≡ hangs)
      ⊎ Ensures
          (λ _ e'.
            IsSound n e'
            × ((k : Text) → lookup k e'.rules ≡ map_option refreshed (lookup k e.rules)))
          (restart e)
unfolding restart
restart_lem {n = n} {e = e} s =
    elim (restart_loop_lem e.rules (record e { held = true }) (Inv-held true s.inv) refl
      s.inv.numbering.nodup (Current-all s e.rules s.inv.numbering.nodup (λ k r p. p))) [
        | inl stuck ↦ inl (rw (lock_free e s.free) (rw stuck))
        | inr done ↦
            let (_, e1, ends, rounds) = Ensures-elim done in
            inr (
              rw (lock_free e s.free) (
                rw ends (
                  rw (unlock_held e1 rounds.held) (
                    returned tt _ (
                      record { free = refl; inv = Inv-held false rounds.inv },
                      λ k. rounds.rules k ∙ touched_all (lookup k e.rules),
                    )))))
      ]
