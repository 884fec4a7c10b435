-- ===== src/Ssh/Client/Running/Keeping.antt =====
-- internal/ssh/client.go: what each step of `Run` and of the other methods keeps.
use mathlib.Core.Path.{subst}
use port_forwarder.Base.{
  ℕ, suc, ◌≡◌, ◌≢◌, refl, sym, ap, ◌∙◌, inl, inr, Bool, true, false, ◌||◌, Option, List, [], ◌∷◌,
  ◌++◌, ◌==◌, if◌then◌else◌, arith, nat_eq, Bool-cases,
}
use port_forwarder.Base.Text.{Text, text_eq}
use port_forwarder.Base.Map.{Map, lookup-insert}
use port_forwarder.Net.{Listener}
use port_forwarder.Ssh.Client.{
  Client, ClientRule, Error, subscribe, add, remove, drain_listeners, cancelled, fail_all,
}
use port_forwarder.Ssh.Client.Running.{
  second, Phase, dialling, connecting, subscribing, up, clearing, ended, Call, Runner, values,
  listeners, rule_ids, call_ids, phase_ids, holds, without, under_way, IsLive, fail_new, note,
  take_all, close_one,
}
use port_forwarder.Ssh.Client.Running.Owners.{
  Excused, Inv, insert-Excused, erase-Excused, subscribe-Inv, fail_new-Inv, note-Inv, add-Inv,
  remove-Inv,
}
use port_forwarder.Ssh.Client.Running.Keys.{
  Keyed, insert-Keyed, erase-Keyed, values-lookup, subscribe-pending, fail_new-pending, add-pending,
  remove-pending, fail_all-pending,
}
use port_forwarder.Ssh.Client.Running.Closing.{
  holds-append, holds-without, rule_ids-middle, call_ids-middle, Known, drained, fail_all-Inv,
  cancelled-Inv, take_all-Inv, close_one-Inv,
}
use port_forwarder.Ssh.Client.Running.Idling.{
  Idle, step-Idle, fail_all-Idle, add-Idle, remove-Idle, fail_new-Idle,
}

-- What holds of a client in `Run` with the calls that are under way.
pub record Good (base : ℕ → Type 0) (x : Runner) : Type 0 where
  pub keyed : Keyed x.client.pending
  pub inv : Inv (Known base x.closing) x.raced x.client
  pub excused : (k : Text) → under_way k x ≡ true → Excused x.client.pending x.raced k
  pub idle : Idle x.phase x.client

-- What `removes` notes says the same of the other IDs, and of its own if it was under way.
noted-holds :
    (k id : Text) (b : Bool) (raced : List Text)
    → k ≢ id
    → holds k (if b then id ∷ raced else without id raced) ≡ holds k raced
noted-holds k id true raced other = ground arith
noted-holds k id false raced other = holds-without k id raced other

noted-mine :
    (k id : Text) (b : Bool) (raced : List Text)
    → k ≡ id
    → b ≡ true
    → holds k (if b then id ∷ raced else without id raced) ≡ true
noted-mine k id true raced mine is = ground arith
noted-mine k id false raced mine is = absurd (ground arith)

live-Idle : (p : Phase) (c : Client) → IsLive p → Idle p c
live-Idle dialling c live = absurd live
live-Idle clearing c live = absurd live
live-Idle ended c live = absurd live
live-Idle connecting c live = tt
live-Idle (subscribing rs) c live = tt
live-Idle up c live = tt

-- The rules and the notes are as before, and nothing more is under way.
same-Excused :
    {base : ℕ → Type 0} {x : Runner} (g : Good base x) {rules : Map ClientRule}
    → rules ≡ x.client.pending
    → (k : Text) → under_way k x ≡ true
    → Excused rules x.raced k
same-Excused {x = x} g same k w = subst (λ p. Excused p x.raced k) (sym same) (g.excused k w)

-- The steps of the goroutine of `Run`.
module _ {base : ℕ → Type 0} {x : Runner} (g : Good base x) where
  pub dial_fails-Good :
      (err : Error) (b : ℕ) → Good base (record x { client = fail_all err x.client; backoff = b })
  dial_fails-Good err b = record {
    keyed = subst Keyed (sym (fail_all-pending err x.client)) g.keyed;
    inv = fail_all-Inv err x.client g.inv;
    excused = same-Excused g (fail_all-pending err x.client);
    idle = fail_all-Idle x.phase err x.client g.idle;
  }

  pub connects-Good : Good base (record x {
    client = drain_listeners (record x.client { conn = true });
    phase = connecting;
    backoff = second;
    session = suc x.session;
  })
  connects-Good = record {
    keyed = g.keyed;
    inv = drained x.client _ g.inv refl refl;
    excused = λ k w. g.excused k (ground arith);
    idle = tt;
  }

  pub snapshots-Good : Good base (record x { phase = subscribing (values x.client.pending) })
  snapshots-Good = record {
    keyed = g.keyed;
    inv = g.inv;
    excused = λ k w. elim (Bool-cases (holds k (rule_ids (values x.client.pending)))) [
      | inl taken ↦ inl (values-lookup k x.client.pending g.keyed taken)
      | inr other ↦ g.excused k (ground (arith, other))
    ];
    idle = tt;
  }

  pub subscribes-Good :
      (front : List ClientRule) (r : ClientRule) (back : List ClientRule)
      → x.phase ≡ subscribing (front ++ r ∷ back)
      → Good base (record x { client = subscribe r x.client; phase = subscribing (front ++ back) })
  subscribes-Good front r back is =
      let taken : (k : Text)
          → under_way k x
            ≡ ((k == r.id) || holds k (rule_ids (front ++ back))) || holds k (call_ids x.calls) =
        λ k. rw is (rw (rule_ids-middle k front r back) refl) in
      record {
        keyed = subst Keyed (sym (subscribe-pending r x.client)) g.keyed;
        inv = subscribe-Inv r x.client (g.excused r.id (ground (arith, taken r.id))) g.inv;
        excused = λ k w. same-Excused g (subscribe-pending r x.client) k (ground (arith, taken k));
        idle = tt;
      }

  pub waits-Good : x.phase ≡ subscribing [] → Good base (record x { phase = up })
  waits-Good is = record {
    keyed = g.keyed;
    inv = g.inv;
    excused = λ k w. g.excused k (ground arith);
    idle = tt;
  }

  pub drops-Good : Good base (record x { client = drain_listeners x.client; phase = clearing })
  drops-Good = record {
    keyed = g.keyed;
    inv = drained x.client _ g.inv refl refl;
    excused = λ k w. g.excused k (ground arith);
    idle = refl;
  }

  pub clears-Good :
      x.phase ≡ clearing → Good base (record x { client = cancelled x.client; phase = dialling })
  unfolding cancelled
  clears-Good is = record {
    keyed = g.keyed;
    inv = cancelled-Inv x.client g.inv;
    excused = λ k w. g.excused k (ground arith);
    idle = (subst (λ p. Idle p x.client) is g.idle, refl);
  }

  pub cancels-Good : Good base (record x { client = cancelled x.client; phase = ended })
  unfolding cancelled
  cancels-Good = record {
    keyed = g.keyed;
    inv = cancelled-Inv x.client g.inv;
    excused = λ k w. g.excused k (ground arith);
    idle = tt;
  }

  pub cancels_dial-Good :
      (err : Error) (b : ℕ)
      → Good base (record x { client = fail_all err x.client; phase = ended; backoff = b })
  cancels_dial-Good err b = record {
    keyed = subst Keyed (sym (fail_all-pending err x.client)) g.keyed;
    inv = fail_all-Inv err x.client g.inv;
    excused = λ k w. same-Excused g (fail_all-pending err x.client) k (ground arith);
    idle = tt;
  }

  pub ends-Good : Good base (record x { phase = ended })
  ends-Good = record {
    keyed = g.keyed;
    inv = g.inv;
    excused = λ k w. g.excused k (ground arith);
    idle = tt;
  }

-- The steps of the other methods.
module _ {base : ℕ → Type 0} {x : Runner} (g : Good base x) where
  pub adds_offline-Good :
      (r : ClientRule) → x.client.conn ≡ false → Good base (record x { client = add r x.client })
  adds_offline-Good r down = record {
    keyed = subst Keyed (sym (add-pending r x.client)) (insert-Keyed r x.client.pending g.keyed);
    inv = add-Inv r x.client down g.inv;
    excused = λ k w.
        subst (λ p. Excused p x.raced k) (sym (add-pending r x.client))
          (insert-Excused r x.client.pending x.raced k (g.excused k w));
    idle = add-Idle x.phase r x.client down g.idle;
  }

  pub adds_online-Good :
      (r : ClientRule)
      → Good base (record x {
        client = note r x.client;
        calls = record { rule = r; session = x.session } ∷ x.calls;
      })
  adds_online-Good r = record {
    keyed = insert-Keyed r x.client.pending g.keyed;
    inv = note-Inv r x.client g.inv;
    excused = λ k w. elim (text_eq.dec k r.id) [
      | yes mine ↦ inl (r, ground (arith, lookup-insert k r.id r x.client.pending))
      | no other ↦ insert-Excused r x.client.pending x.raced k (g.excused k (ground arith))
    ];
    idle = step-Idle x.phase x.client _ (λ e. e) (λ e. e) g.idle;
  }

  pub call_subscribes-Good :
      (front : List Call) (c : Call) (back : List Call)
      → x.calls ≡ front ++ c ∷ back
      → IsLive x.phase
      → Good base (record x { client = subscribe c.rule x.client; calls = front ++ back })
  call_subscribes-Good front c back is live =
      let r = c.rule in
      let taken : (k : Text)
          → under_way k x
            ≡ (holds k (phase_ids x.phase) || ((k == r.id) || holds k (call_ids (front ++ back)))) =
        λ k. rw is (rw (call_ids-middle k front c back) refl) in
      record {
        keyed = subst Keyed (sym (subscribe-pending r x.client)) g.keyed;
        inv = subscribe-Inv r x.client (g.excused r.id (ground (arith, taken r.id))) g.inv;
        excused = λ k w. same-Excused g (subscribe-pending r x.client) k (ground (arith, taken k));
        idle = live-Idle x.phase (subscribe r x.client) live;
      }

  pub call_fails-Good :
      (front : List Call) (c : Call) (back : List Call) (o : Option Listener)
      → x.calls ≡ front ++ c ∷ back
      → Good base (record x { client = fail_new c.rule o x.client; calls = front ++ back })
  call_fails-Good front c back o is =
      let r = c.rule in
      let taken : (k : Text)
          → under_way k x
            ≡ (holds k (phase_ids x.phase) || ((k == r.id) || holds k (call_ids (front ++ back)))) =
        λ k. rw is (rw (call_ids-middle k front c back) refl) in
      record {
        keyed = subst Keyed (sym (fail_new-pending r o x.client)) g.keyed;
        inv = fail_new-Inv r o x.client g.inv;
        excused = λ k w. same-Excused g (fail_new-pending r o x.client) k (ground (arith, taken k));
        idle = fail_new-Idle x.phase r o x.client g.idle;
      }

  pub removes-Good :
      (id : Text)
      → Good base (record x {
        client = remove id x.client;
        raced = if under_way id x then id ∷ x.raced else without id x.raced;
      })
  removes-Good id =
      let raced' = if under_way id x then id ∷ x.raced else without id x.raced in
      let kept : (k : Text) → k ≢ id → holds k raced' ≡ holds k x.raced =
        λ k other. noted-holds k id (under_way id x) x.raced other in
      record {
        keyed =
            subst Keyed (sym (remove-pending id x.client))
              (erase-Keyed id x.client.pending g.keyed);
        inv = remove-Inv raced' id x.client kept g.inv;
        excused = λ k w.
            subst (λ p. Excused p raced' k) (sym (remove-pending id x.client))
              (elim (text_eq.dec k id) [
                | yes mine ↦ inr (
                    noted-mine k id (under_way id x) x.raced mine
                      (ap (λ j. under_way j x) (sym mine) ∙ w))
                | no other ↦
                    erase-Excused id x.client.pending x.raced raced' k other (kept k other)
                      (g.excused k w)
              ]);
        idle = remove-Idle x.phase id x.client g.idle;
      }

  pub shuts-Good : Good base (record x {
    client = take_all x.client;
    closing = listeners x.client.lns ++ x.closing;
    raced = phase_ids x.phase ++ call_ids x.calls;
  })
  shuts-Good = record {
    keyed = tt;
    inv = take_all-Inv (phase_ids x.phase ++ call_ids x.calls) x.client x.closing g.inv;
    excused = λ k w. inr (holds-append k (phase_ids x.phase) (call_ids x.calls) ∙ w);
    idle = step-Idle x.phase x.client _ (λ _. refl) (λ _. refl) g.idle;
  }

  pub closes-Good :
      (front : List Listener) (ln : Listener) (back : List Listener)
      → x.closing ≡ front ++ ln ∷ back
      → Good base (record x { client = close_one ln x.client; closing = front ++ back })
  closes-Good front ln back is = record {
    keyed = g.keyed;
    inv =
        close_one-Inv front ln back x.client
          (subst (λ l. Inv (Known base l) x.raced x.client) is g.inv);
    excused = g.excused;
    idle = step-Idle x.phase x.client _ (λ e. e) (λ e. e) g.idle;
  }
