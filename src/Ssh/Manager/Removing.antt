-- ===== src/Ssh/Manager/Removing.antt =====
-- internal/ssh/manager.go: `RemoveRemote` takes the rule from its client.
use mathlib.Core.Path.{subst}
use port_forwarder.Base.{
  ◌≡◌, ◌≢◌, refl, Option, sym, ◌∙◌, ap, inl, inr, none, some, arith, ◌==◌, if◌then◌else◌,
  Option-cases,
}
use port_forwarder.Base.Text.{Text, text_eq}
use port_forwarder.Base.Map.{erase-NodupKeys, lookup, insert, erase, lookup-insert, lookup-erase}
use port_forwarder.Engine.{Rule}
use port_forwarder.Ssh.Client
use port_forwarder.Ssh.Client.{Client, ClientRule}
use port_forwarder.Ssh.Manager.{Manager, edit_at, or_empty, remove_remote}
use port_forwarder.Ssh.Manager.Serving.{
  rules-edit_at, credential_of, Owns, Owns-of, Policy, Covered, Good, made-insert, remove-addr,
  pending_at, pending-remove,
}

module _ {p : Policy} {m : Manager} (s : Good p m) (id : Text) where
  abbrev erased : Manager
  erased = record m { rules = erase id m.rules; by_rule = erase id m.by_rule }

  abbrev owner : Text
  owner = or_empty (lookup id m.by_rule)

  owner-is : {r : Rule} → lookup id m.rules ≡ some r → owner ≡ r.credential
  owner-is found = ap or_empty (s.by id ∙ ap credential_of found)

  -- A client that has a rule under the ID is the owner's.
  owner_only : (cred : Text) (q : ClientRule) → Owns cred (lookup id m.rules) q → cred ≡ owner
  owner_only cred q own = elim (Option-cases (lookup id m.rules)) [
    | inl absent ↦ absurd (Owns-of cred (lookup id m.rules) q (sym absent) own)
    | inr (r, found) ↦
        sym (Owns-of cred (lookup id m.rules) q (sym found) own).0 ∙ sym (owner-is found)
  ]

  by_erased : (k : Text) → lookup k erased.by_rule ≡ credential_of (lookup k erased.rules)
  by_erased k = ground (arith, lookup-erase k id m.rules, lookup-erase k id m.by_rule, s.by k)

  rules_erased : (k : Text) → k ≢ id → lookup k erased.rules ≡ lookup k m.rules
  rules_erased k other = lookup-erase k id m.rules ∙ ground arith

  was_there :
      (k : Text) {w : Rule}
      → lookup k erased.rules ≡ some w
      → (k ≢ id) × (lookup k m.rules ≡ some w)
  was_there k found = elim (text_eq.dec k id) [
    | yes same ↦ absurd (ground (arith, lookup-erase k id m.rules, found))
    | no other ↦ (other, sym (rules_erased k other) ∙ found)
  ]

  -- There is no client: nobody has the rule.
  nobody : lookup owner m.clients ≡ none → Good p erased
  nobody absent = record {
    nodup = erase-NodupKeys id m.rules s.nodup;
    by = by_erased;
    owns = λ cred cl k q at has.
        let own = s.owns cred cl k q at has in
        elim (text_eq.dec k id) [
          | yes same ↦ absurd (
              grind (
                arith,
                sym at
                    ∙ ap (λ c. lookup c m.clients)
                        (owner_only cred q (
                          Owns-of cred (lookup k m.rules) q (ap (λ j. lookup j m.rules) (sym same))
                            own))
                    ∙ absent,
              ))
          | no other ↦ Owns-of cred (lookup k m.rules) q (rules_erased k other) own
        ];
    covered = λ k w found is. s.covered k w (was_there k found).1 is;
    made = s.made;
  }

  module _ {cl : Client} (at : lookup owner m.clients ≡ some cl) where
    abbrev left : Client
    left = Client.remove id cl

    left_pending :
        (k : Text) → lookup k left.pending ≡ (if k == id then none else lookup k cl.pending)
    left_pending k = ap (lookup k) (pending-remove id cl) ∙ lookup-erase k id cl.pending

    left-Owns :
        (cred : Text) (cl' : Client) (k : Text) (q : ClientRule)
        → lookup cred (insert owner left m.clients) ≡ some cl'
        → lookup k cl'.pending ≡ some q
        → Owns cred (lookup k erased.rules) q
    left-Owns cred cl' k q there has = elim (text_eq.dec cred owner) [
      | no other ↦
          let own =
            s.owns cred cl' k q (ground (arith, there, lookup-insert cred owner left m.clients))
              has in
          elim (text_eq.dec k id) [
            | yes same ↦ absurd (
                other (
                  owner_only cred q (
                    Owns-of cred (lookup k m.rules) q (ap (λ j. lookup j m.rules) (sym same)) own)))
            | no apart ↦ Owns-of cred (lookup k m.rules) q (rules_erased k apart) own
          ]
      | yes mine ↦
          let is_left : some cl' ≡ some left =
            sym there ∙ ground (arith, lookup-insert cred owner left m.clients) in
          let has' : lookup k left.pending ≡ some q = sym (ap (pending_at k) is_left) ∙ has in
          elim (text_eq.dec k id) [
            | yes same ↦ absurd (ground (arith, left_pending k, has'))
            | no apart ↦ Owns-of cred (lookup k m.rules) q (rules_erased k apart) (
                s.owns cred cl k q (ap (λ c. lookup c m.clients) mine ∙ at)
                  (ground (arith, left_pending k, has')))
          ]
    ]

    left-Covered :
        (k : Text) (w : Rule)
        → lookup k erased.rules ≡ some w
        → Covered p k w (record erased { clients = insert owner left m.clients })
    left-Covered k w found =
        let (apart, was) = was_there k found in
        elim (s.covered k w was (λ no_way. no_way)) [
          | inl out ↦ inl out
          | inr (old, there, has) ↦ elim (text_eq.dec w.credential owner) [
            | no other ↦
                inr (
                  old,
                  lookup-insert w.credential owner left m.clients ∙ ground (arith, there),
                  has,
                )
            | yes same ↦ inr (
              left,
              lookup-insert w.credential owner left m.clients ∙ ground arith,
              left_pending k
                  ∙ ground arith
                  ∙ ap (pending_at k) (sym at ∙ ap (λ c. lookup c m.clients) (sym same) ∙ there)
                  ∙ has,
            )
          ]
        ]

    left-Good : Good p (record erased { clients = insert owner left m.clients })
    left-Good = record {
      nodup = erase-NodupKeys id m.rules s.nodup;
      by = by_erased;
      owns = left-Owns;
      covered = λ k w found is. left-Covered k w found;
      made =
          made-insert p m owner left s.made
            (subst (p.dialled owner) (sym (remove-addr id cl)) (s.made owner cl at));
    }

  pub remove_remote-Good : Good p (remove_remote id m)
  unfolding remove_remote
  remove_remote-Good = elim (Option-cases (lookup owner m.clients)) [
    | inl absent ↦ rw absent (nobody absent)
    | inr (cl, found) ↦ rw found (left-Good found)
  ]

pub rules-remove_remote :
    (id k : Text) (m : Manager)
    → lookup k (remove_remote id m).rules ≡ (if k == id then none else lookup k m.rules)
unfolding remove_remote
rules-remove_remote id k m =
    ap (lookup k)
      (rules-edit_at _ (Client.remove id) (lookup (or_empty (lookup id m.by_rule)) m.clients) _)
    ∙ lookup-erase k id m.rules

store-edit_at :
    (cred : Text) (f : Client → Client) (o : Option Client) (m : Manager)
    → (edit_at cred f o m).store ≡ m.store
store-edit_at cred f none m = refl
store-edit_at cred f (some cl) m = refl

pub store-remove_remote : (id : Text) (m : Manager) → (remove_remote id m).store ≡ m.store
unfolding remove_remote
store-remove_remote id m = store-edit_at _ _ _ _
