-- ===== src/Ssh/Manager/Forgetting.antt =====
-- internal/ssh/manager.go: what `RemoveCredential` leaves.
use port_forwarder.Base.{
  ℕ, ◌≡◌, ◌≢◌, refl, sym, ◌∙◌, ap, inl, inr, Bool, false, Option, none, some, [], ◌∷◌, arith, ◌==◌,
  nat_eq, if◌then◌else◌, contains, Bool-cases,
}
use port_forwarder.Base.Text.{Text, text_eq}
use port_forwarder.Base.Map.{
  Map, lookup, erase, lookup-nil, lookup-cons, lookup-erase, NodupKeys, erase-NodupKeys,
}
use port_forwarder.Engine.{Rule}
use port_forwarder.Ssh.Credentials.{Credential, get, delete_credential}
use port_forwarder.Ssh.Client.{Client, ClientRule}
use port_forwarder.Ssh.Manager.{
  Manager, drop_rules, cancel_context, shut, forget_credential, remove_credential,
}
use port_forwarder.Ssh.Manager.Serving.{credential_of, Owns, Owns-of, Good, any_policy}

abbrev pub names : Text → Option Rule → Bool
names cred none = false
names cred (some r) = r.credential == cred

-- What is left of the rule under an ID.
abbrev pub kept : Text → Option Rule → Option Rule
kept cred o = if names cred o then none else o

-- Of the managers in the loop, only the two maps of rules change.
pub record Dropped (cred : Text) (rs : Map Rule) (m m' : Manager) : Type 0 where
  pub nodup : NodupKeys m'.rules
  pub rules :
      (k : Text) → lookup k m'.rules ≡ (if names cred (lookup k rs) then none else lookup k m.rules)
  pub by_rule :
      (k : Text)
      → lookup k m'.by_rule ≡ (if names cred (lookup k rs) then none else lookup k m.by_rule)
  pub clients : m'.clients ≡ m.clients
  pub refused : m'.refused ≡ m.refused
  pub store : m'.store ≡ m.store

drop_rules-Dropped :
    (cred : Text) (rs : Map Rule) (m : Manager)
    → NodupKeys rs
    → NodupKeys m.rules
    → Dropped cred rs m (drop_rules cred rs m)
unfolding drop_rules
drop_rules-Dropped cred [] m u v = record {
  nodup = v;
  rules = λ k. ground (arith, lookup-nil {V = Rule} k);
  by_rule = λ k. ground (arith, lookup-nil {V = Rule} k);
  clients = refl;
  refused = refl;
  store = refl;
}
drop_rules-Dropped cred ((j, r) ∷ rs) m u v = elim (Bool-cases (r.credential == cred)) [
  | inl mine ↦
      let rest =
        drop_rules-Dropped cred rs
          (record m { rules = erase j m.rules; by_rule = erase j m.by_rule }) u.1
          (erase-NodupKeys j m.rules v) in
      rw mine (record {
        nodup = rest.nodup;
        rules =
            λ k. rest.rules k ∙ ground (arith, lookup-cons k j r rs, lookup-erase k j m.rules, u.0);
        by_rule = λ k.
            rest.by_rule k ∙ ground (arith, lookup-cons k j r rs, lookup-erase k j m.by_rule, u.0);
        clients = rest.clients;
        refused = rest.refused;
        store = rest.store;
      })
  | inr other ↦
      let rest = drop_rules-Dropped cred rs m u.1 v in
      rw other (record {
        nodup = rest.nodup;
        rules = λ k. rest.rules k ∙ ground (arith, lookup-cons k j r rs, u.0);
        by_rule = λ k. rest.by_rule k ∙ ground (arith, lookup-cons k j r rs, u.0);
        clients = rest.clients;
        refused = rest.refused;
        store = rest.store;
      })
]

kept-some :
    (cred : Text) (o : Option Rule) {w : Rule}
    → kept cred o ≡ some w
    → (o ≡ some w) × (w.credential ≢ cred)
kept-some cred none e = absurd (grind arith)
kept-some cred (some r) {w} e = elim (text_eq.dec r.credential cred) [
  | yes mine ↦ absurd (ground (arith, e))
  | no other ↦
      let same : some r ≡ some w = ground (arith, e) in
      (same, λ is. other (grind (arith, same, is)))
]

kept-other : (cred : Text) (r : Rule) → r.credential ≢ cred → kept cred (some r) ≡ some r
kept-other cred r other = ground arith

kept-by :
    (cred : Text) (o : Option Rule)
    → (if names cred o then none else credential_of o) ≡ credential_of (kept cred o)
kept-by cred none = refl
kept-by cred (some r) = ground arith

module _ {m : Manager} (s : Good any_policy m) (id : Text) where
  abbrev dropped : Manager
  dropped = drop_rules id m.rules m

  abbrev forgotten : Manager
  forgotten = record dropped {
    clients = erase id dropped.clients;
    cancel = erase id dropped.cancel;
  }

  drop : Dropped id m.rules m dropped
  drop = drop_rules-Dropped id m.rules m s.nodup s.nodup

  client_then :
      (cred : Text) {cl : Client}
      → lookup cred forgotten.clients ≡ some cl
      → (cred ≢ id) × (lookup cred m.clients ≡ some cl)
  client_then cred at = elim (text_eq.dec cred id) [
    | yes mine ↦ absurd (ground (arith, at, lookup-erase cred id dropped.clients))
    | no other ↦ (
      other,
      sym (ap (lookup cred) drop.clients)
          ∙ ground (arith, at, lookup-erase cred id dropped.clients),
    )
  ]

  client_now :
      (cred : Text) {cl : Client}
      → cred ≢ id
      → lookup cred m.clients ≡ some cl
      → lookup cred forgotten.clients ≡ some cl
  client_now cred other at =
      lookup-erase cred id dropped.clients ∙ ground (arith, ap (lookup cred) drop.clients ∙ at)

  Owns-kept :
      (cred : Text) (o : Option Rule) (q : ClientRule)
      → cred ≢ id
      → Owns cred o q
      → Owns cred (kept id o) q
  Owns-kept cred none q other own = absurd own
  Owns-kept cred (some r) q other own =
      Owns-of cred (some r) q (kept-other id r (λ is. other (sym own.0 ∙ is))) own

  forgotten-Good : Good any_policy forgotten
  forgotten-Good = record {
    nodup = drop.nodup;
    by = λ k.
        drop.by_rule k
        ∙ ap (λ c. if names id (lookup k m.rules) then none else c) (s.by k)
        ∙ kept-by id (lookup k m.rules)
        ∙ ap credential_of (sym (drop.rules k));
    owns = λ cred cl k q at has.
        let (other, was) = client_then cred at in
        Owns-of cred (kept id (lookup k m.rules)) q (drop.rules k)
          (Owns-kept cred (lookup k m.rules) q other (s.owns cred cl k q was has));
    covered = λ k w found is.
        let (was, other) = kept-some id (lookup k m.rules) (sym (drop.rules k) ∙ found) in
        elim (s.covered k w was is) [
          | inl (out, may) ↦ inl (ap (λ l. contains l k) drop.refused ∙ out, may)
          | inr (cl, at, has) ↦ inr (cl, client_now w.credential other at, has)
        ];
    made = λ cred cl at. tt;
  }

-- The rest of the method does not touch the rules or the clients.
module _ {m : Manager} (s : Good any_policy m) where
  cancel_context-Good : (o : Option ℕ) → Good any_policy (cancel_context o m)
  cancel_context-Good none = s
  cancel_context-Good (some c) = record {
    nodup = s.nodup;
    by = s.by;
    owns = s.owns;
    covered = s.covered;
    made = s.made;
  }

  shut-Good : (o : Option Client) → Good any_policy (shut o m)
  shut-Good none = s
  shut-Good (some cl) = record {
    nodup = s.nodup;
    by = s.by;
    owns = s.owns;
    covered = s.covered;
    made = s.made;
  }

  forget_credential-Good :
      (id : Text) (o : Option Credential) → Good any_policy (forget_credential id o m).1
  forget_credential-Good id none = s
  forget_credential-Good id (some c) = record {
    nodup = s.nodup;
    by = s.by;
    owns = s.owns;
    covered = s.covered;
    made = s.made;
  }

-- `RemoveCredential` of a credential that the store has or has not: the manager's maps agree, there
-- is no client and no rule for it, and every other rule and client is as before.
pub record Forgotten (id : Text) (m m' : Manager) : Type 0 where
  pub good : Good any_policy m'
  pub rules : (k : Text) → lookup k m'.rules ≡ kept id (lookup k m.rules)
  pub clients : (k : Text) → lookup k m'.clients ≡ (if k == id then none else lookup k m.clients)

rest-rules :
    (id : Text) (a : Option ℕ) (b : Option Client) (c : Option Credential) (m : Manager)
    → ((forget_credential id c (shut b (cancel_context a m))).1.rules ≡ m.rules)
      × ((forget_credential id c (shut b (cancel_context a m))).1.clients ≡ m.clients)
rest-rules id none none none m = (refl, refl)
rest-rules id none none (some z) m = (refl, refl)
rest-rules id none (some y) none m = (refl, refl)
rest-rules id none (some y) (some z) m = (refl, refl)
rest-rules id (some x) none none m = (refl, refl)
rest-rules id (some x) none (some z) m = (refl, refl)
rest-rules id (some x) (some y) none m = (refl, refl)
rest-rules id (some x) (some y) (some z) m = (refl, refl)

pub remove_credential-Forgotten :
    {m : Manager} (id : Text) → Good any_policy m → Forgotten id m (remove_credential id m).1
unfolding remove_credential
remove_credential-Forgotten {m} id s =
    let same = rest-rules id (lookup id m.cancel) (lookup id m.clients) _ (forgotten s id) in
    record {
      good =
          forget_credential-Good (shut-Good (cancel_context-Good (forgotten-Good s id) _) _) id _;
      rules = λ k. ap (lookup k) same.0 ∙ (drop s id).rules k;
      clients = λ k.
          ap (lookup k) same.1
          ∙ lookup-erase k id (dropped s id).clients
          ∙ ap (λ c. if k == id then none else lookup k c) (drop s id).clients;
    }

forget_credential-store :
    (id : Text) (o : Option Credential) (m : Manager)
    → get id m.store ≡ o
    → ((forget_credential id o m).0 ≡ (delete_credential id m.store).0)
      × ((forget_credential id o m).1.store ≡ (delete_credential id m.store).1)
unfolding delete_credential get
forget_credential-store id none m absent = (rw absent, rw absent)
forget_credential-store id (some c) m found = (refl, refl)

rest-store :
    (a : Option ℕ) (b : Option Client) (m : Manager) → (shut b (cancel_context a m)).store ≡ m.store
rest-store none none m = refl
rest-store none (some y) m = refl
rest-store (some x) none m = refl
rest-store (some x) (some y) m = refl

-- To the store, it is `Delete`, whose own test makes the one before it redundant.
pub remove_credential-delete :
    {m : Manager} (id : Text)
    → Good any_policy m
    → ((remove_credential id m).0 ≡ (delete_credential id m.store).0)
      × ((remove_credential id m).1.store ≡ (delete_credential id m.store).1)
unfolding remove_credential
remove_credential-delete {m} id s =
    let same : (shut (lookup id m.clients)
          (cancel_context (lookup id m.cancel) (forgotten s id))).store
        ≡ m.store =
      rest-store _ _ _ ∙ (drop s id).store in
    let (answer, store) = forget_credential-store id _ _ refl in
    (
      answer ∙ ap (λ st. (delete_credential id st).0) same,
      store ∙ ap (λ st. (delete_credential id st).1) same,
    )
