-- ===== src/Ssh/Manager/Adding.antt =====
-- internal/ssh/manager.go: `AddRemote` gives the rule to a client, or reports it.
use mathlib.Core.Path.{subst}
use port_forwarder.Base.{
  ◌≡◌, refl, sym, ◌∙◌, ap, inl, inr, Bool, true, false, Option, none, some, List, [], ◌∷◌, arith,
  ◌==◌, if◌then◌else◌,
}
use port_forwarder.Base.Text.{Text, text_eq}
use port_forwarder.Base.Map.{insert-NodupKeys, lookup, insert, lookup-nil, lookup-insert}
use port_forwarder.Net.{Net}
use port_forwarder.Engine.{Rule}
use port_forwarder.Net.HostPort.{normalize_host}
use port_forwarder.Ssh.Credentials.{Credential, CredStore, get}
use port_forwarder.Ssh.Client
use port_forwarder.Ssh.Client.{Client, ClientRule, subscribe, new_client, set_on_rule}
use port_forwarder.Ssh.Auth
use port_forwarder.Ssh.Auth.{System, Method, Result, ok, failed, credential_auth}
use port_forwarder.Ssh.Manager.{
  Manager, client_rule, edit_client, start_client, ensure_stored, ensure_found, ensure_client,
  add_remote,
}
use port_forwarder.Ssh.Manager.Serving.{
  Owns, Owns-of, Policy, Covered, Agrees, Good, made-insert, add-addr, pending_at, pending-add,
}

-- The rule and its credential are written down first.
module _ {p : Policy} {m : Manager} (s : Good p m) (r : Rule)
    (free : lookup r.id m.rules ≡ none) where
  abbrev pub noted : Manager
  noted = record m { rules = insert r.id r m.rules; by_rule = insert r.id r.credential m.by_rule }

  pub noted-Agrees : Agrees p (λ k. k ≡ r.id) noted
  noted-Agrees = record {
    nodup = insert-NodupKeys r.id r m.rules s.nodup;
    by = λ k. ground (
      arith,
      lookup-insert k r.id r m.rules,
      lookup-insert k r.id r.credential m.by_rule,
      s.by k,
    );
    owns = λ cred cl k q at has. elim (text_eq.dec k r.id) [
      | yes same ↦ absurd (
          Owns-of cred (lookup k m.rules) q (sym (ap (λ j. lookup j m.rules) same ∙ free))
            (s.owns cred cl k q at has))
      | no other ↦
          Owns-of cred (lookup k m.rules) q (ground (arith, lookup-insert k r.id r m.rules))
            (s.owns cred cl k q at has)
    ];
    covered = λ k w found other.
        s.covered k w (ground (arith, lookup-insert k r.id r m.rules)) (λ no_way. no_way);
    made = s.made;
  }

-- The store has no such credential, or has one that gives no authentication methods.
pub data IsUnavailable {Signer : Type 0} (sys : System Signer) (st : CredStore) (cred : Text)
    : Type 0 where
  missing : get cred st ≡ none → IsUnavailable sys st cred
  unusable :
      (c : Credential) (x : Auth.Error)
      → get cred st ≡ some c
      → credential_auth sys (some c) ≡ failed x
      → IsUnavailable sys st cred

-- Just the unavailable credentials may go without a client, and the others may have one for their
-- host.
pub record Allows {Signer : Type 0} (sys : System Signer) (st : CredStore) (p : Policy)
    : Type 0 where
  pub unserved : (k : Text) (r : Rule) → IsUnavailable sys st r.credential → p.unserved k r
  pub dialled :
      (cred : Text) (c : Credential) (methods : List (Method Signer))
      → get cred st ≡ some c
      → credential_auth sys (some c) ≡ ok methods
      → p.dialled cred (normalize_host c.host)

-- `ensureClient` leaves the rules and the store alone, and says whether there is a client; there is
-- none only for an unavailable credential.
pub record Ensured {Signer : Type 0} (sys : System Signer) (p : Policy) (but : Text → Type 0)
    (cred : Text) (m : Manager) (there : Bool) (m' : Manager) : Type 0 where
  pub agrees : Agrees p but m'
  pub store : m'.store ≡ m.store
  pub unavailable : there ≡ false → IsUnavailable sys m.store cred
  pub rules : m'.rules ≡ m.rules
  pub by_rule : m'.by_rule ≡ m.by_rule
  pub client : there ≡ true → (cl : Client) × (lookup cred m'.clients ≡ some cl)

-- A new client, that has no rule yet, for a credential that had none.
module _ {p : Policy} {but : Text → Type 0} {m : Manager} (s : Agrees p but m) (cred : Text)
    (absent : lookup cred m.clients ≡ none) (cl : Client) (empty : cl.pending ≡ []) where
  only_client :
      (cred' : Text) (cl' : Client)
      → cred' ≡ cred
      → lookup cred' (insert cred cl m.clients) ≡ some cl'
      → some cl' ≡ some cl
  only_client cred' cl' same at = sym at ∙ ground (arith, lookup-insert cred' cred cl m.clients)

  new_client-Owns :
      (cred' : Text) (cl' : Client) (k : Text) (q : ClientRule)
      → lookup cred' (insert cred cl m.clients) ≡ some cl'
      → lookup k cl'.pending ≡ some q
      → Owns cred' (lookup k m.rules) q
  new_client-Owns cred' cl' k q at has = elim (text_eq.dec cred' cred) [
    | yes same ↦ absurd (
        grind (
          arith,
          sym has
              ∙ ap (pending_at k) (only_client cred' cl' same at)
              ∙ ap (lookup k) empty
              ∙ lookup-nil k,
        ))
    | no other ↦ s.owns cred' cl' k q (ground (arith, lookup-insert cred' cred cl m.clients)) has
  ]

  new_client-Covered :
      (k : Text) (r : Rule)
      → lookup k m.rules ≡ some r
      → ¬ (but k)
      → Covered p k r (record m { clients = insert cred cl m.clients })
  new_client-Covered k r found is_not = elim (s.covered k r found is_not) [
    | inl out ↦ inl out
    | inr (old, at, has) ↦ inr (
      old,
      elim (text_eq.dec r.credential cred) [
        | yes same ↦ absurd (grind (arith, sym at ∙ ap (λ j. lookup j m.clients) same ∙ absent))
        | no other ↦ lookup-insert r.credential cred cl m.clients ∙ ground (arith, at)
      ],
      has,
    )
  ]

module _ {Signer : Type 0} (sys : System Signer) (nets : Text → Net) {p : Policy}
    {but : Text → Type 0} {m : Manager} (allows : Allows sys m.store p) (s : Agrees p but m)
    (cred : Text) where
  abbrev IsEnsured : Bool × Manager → Type 0
  IsEnsured res = Ensured sys p but cred m res.0 res.1

  no_client : IsUnavailable sys m.store cred → IsEnsured (false, m)
  no_client out = record {
    agrees = s;
    store = refl;
    unavailable = λ _. out;
    rules = refl;
    by_rule = refl;
    client = λ h. absurd (grind arith);
  }

  start_client-Ensured :
      (c : Credential) (res : Result (List (Method Signer)))
      → get cred m.store ≡ some c
      → credential_auth sys (some c) ≡ res
      → lookup cred m.clients ≡ none
      → IsEnsured (start_client sys nets cred c res m)
  start_client-Ensured c (failed x) stored auth absent = no_client (unusable c x stored auth)
  start_client-Ensured c (ok methods) stored auth absent =
      let addr = normalize_host c.host in
      let cl = set_on_rule (new_client addr (nets addr)) in
      record {
        agrees = record {
          nodup = s.nodup;
          by = s.by;
          owns = new_client-Owns s cred absent cl refl;
          covered = new_client-Covered s cred absent cl refl;
          made = made-insert p m cred cl s.made (allows.dialled cred c methods stored auth);
        };
        store = refl;
        unavailable = λ h. absurd (grind arith);
        rules = refl;
        by_rule = refl;
        client = λ h. (cl, ground (arith, lookup-insert cred cred cl m.clients));
      }

  ensure_stored-Ensured :
      (o : Option Credential)
      → get cred m.store ≡ o
      → lookup cred m.clients ≡ none
      → IsEnsured (ensure_stored sys nets cred o m)
  ensure_stored-Ensured none stored absent = no_client (missing stored)
  ensure_stored-Ensured (some c) stored absent =
      start_client-Ensured c (credential_auth sys (some c)) stored refl absent

  ensure_found-Ensured :
      (o : Option Client) → lookup cred m.clients ≡ o → IsEnsured (ensure_found sys nets cred o m)
  ensure_found-Ensured none absent = ensure_stored-Ensured (get cred m.store) refl absent
  ensure_found-Ensured (some cl) found = record {
    agrees = s;
    store = refl;
    unavailable = λ h. absurd (grind arith);
    rules = refl;
    by_rule = refl;
    client = λ h. (cl, found);
  }

  ensure_client-Ensured : IsEnsured (ensure_client sys nets cred m)
  unfolding ensure_client
  ensure_client-Ensured = ensure_found-Ensured (lookup cred m.clients) refl

-- The rule that was noted goes to the client, or is reported.
module _ {p : Policy} {m : Manager} (r : Rule) (s : Agrees p (λ k. k ≡ r.id) m)
    (mine : lookup r.id m.rules ≡ some r) where
  abbrev Unserved : Text → Option Rule → Type 0
  Unserved k none = Unit
  Unserved k (some w) = p.unserved k w

  refused-Good : p.unserved r.id r → Good p (record m { refused = r.id ∷ m.refused })
  refused-Good may = record {
    nodup = s.nodup;
    by = s.by;
    owns = s.owns;
    covered = λ k w found is. elim (text_eq.dec k r.id) [
      | yes same ↦
          let is_mine : some w ≡ some r = sym found ∙ ap (λ j. lookup j m.rules) same ∙ mine in
          inl (
            ground arith,
            subst (λ j. p.unserved j w) (sym same) (subst (Unserved r.id) (sym is_mine) may),
          )
      | no other ↦ elim (s.covered k w found other) [
        | inl (out, allowed) ↦ inl (ground arith, allowed)
        | inr has ↦ inr has
      ]
    ];
    made = s.made;
  }

  module _ {cl : Client} (at : lookup r.credential m.clients ≡ some cl) where
    abbrev served : Client
    served = Client.add (client_rule r) cl

    served_pending :
        (k : Text)
        → lookup k served.pending
          ≡ (if k == r.id then some (client_rule r) else lookup k cl.pending)
    served_pending k = ap (lookup k) (pending-add (client_rule r) cl) ∙ lookup-insert k r.id _ _

    served-Owns :
        (cred : Text) (cl' : Client) (k : Text) (q : ClientRule)
        → lookup cred (insert r.credential served m.clients) ≡ some cl'
        → lookup k cl'.pending ≡ some q
        → Owns cred (lookup k m.rules) q
    served-Owns cred cl' k q there has = elim (text_eq.dec cred r.credential) [
      | no other ↦
          s.owns cred cl' k q
            (ground (arith, there, lookup-insert cred r.credential served m.clients)) has
      | yes same ↦
          let is_served : some cl' ≡ some served =
            sym there ∙ ground (arith, lookup-insert cred r.credential served m.clients) in
          let has' : lookup k served.pending ≡ some q = sym (ap (pending_at k) is_served) ∙ has in
          elim (text_eq.dec k r.id) [
            | yes own ↦
                Owns-of cred (some r) q (ap (λ j. lookup j m.rules) own ∙ mine)
                  (sym same, grind (arith, served_pending k, has'))
            | no old ↦
                subst (λ c. Owns c (lookup k m.rules) q) (sym same)
                  (s.owns r.credential cl k q at (ground (arith, served_pending k, has')))
          ]
    ]

    served-Covered :
        (k : Text) (w : Rule)
        → lookup k m.rules ≡ some w
        → Covered p k w (record m { clients = insert r.credential served m.clients })
    served-Covered k w found = elim (text_eq.dec k r.id) [
      | yes own ↦
          let is_mine : w ≡ r = grind (arith, sym found ∙ ap (λ j. lookup j m.rules) own ∙ mine) in
          inr (
            served,
            ap (λ v. lookup v.credential (insert r.credential served m.clients)) is_mine
                ∙ ground (arith, lookup-insert r.credential r.credential served m.clients),
            served_pending k ∙ ground arith ∙ ap (λ v. some (client_rule v)) (sym is_mine),
          )
      | no other ↦ elim (s.covered k w found other) [
        | inl out ↦ inl out
        | inr (old, there, has) ↦ elim (text_eq.dec w.credential r.credential) [
          | no apart ↦
              inr
                (old, lookup-insert w.credential r.credential served m.clients ∙ ground arith, has)
          | yes same ↦ inr (
            served,
            lookup-insert w.credential r.credential served m.clients ∙ ground arith,
            served_pending k
                ∙ ground arith
                ∙ ap (pending_at k) (sym at ∙ ap (λ c. lookup c m.clients) (sym same) ∙ there)
                ∙ has,
          )
        ]
      ]
    ]

    served-Good : Good p (record m { clients = insert r.credential served m.clients })
    served-Good = record {
      nodup = s.nodup;
      by = s.by;
      owns = served-Owns;
      covered = λ k w found is. served-Covered k w found;
      made = made-insert p m r.credential served s.made (
          subst (p.dialled r.credential) (sym (add-addr (client_rule r) cl))
            (s.made r.credential cl at));
    }

-- What `AddRemote` does once it knows whether there is a client.
abbrev hand_over : Rule → Bool × Manager → Manager
hand_over r (there, m) =
    if there
    then edit_client r.credential (Client.add (client_rule r)) m
    else record m { refused = r.id ∷ m.refused }

hand_over-Good :
    {Signer : Type 0} (sys : System Signer) {p : Policy} (m : Manager) (r : Rule) (there : Bool)
    (m' : Manager)
    → Allows sys m.store p
    → lookup r.id m.rules ≡ some r
    → Ensured sys p (λ k. k ≡ r.id) r.credential m there m'
    → Good p (hand_over r (there, m'))
      × ((hand_over r (there, m')).rules ≡ m.rules)
      × ((hand_over r (there, m')).store ≡ m.store)
hand_over-Good sys m r true m' allows mine e =
    let (cl, at) = e.client refl in
    rw at (served-Good r e.agrees (ap (lookup r.id) e.rules ∙ mine) at, e.rules, e.store)
hand_over-Good sys m r false m' allows mine e = (
  refused-Good r e.agrees (ap (lookup r.id) e.rules ∙ mine)
      (allows.unserved r.id r (e.unavailable refl)),
  e.rules,
  e.store,
)

-- `AddRemote` of a rule whose ID is free.
pub add_remote-Good :
    {Signer : Type 0} (sys : System Signer) (nets : Text → Net) {p : Policy} {m : Manager}
    (r : Rule)
    → Allows sys m.store p
    → Good p m
    → lookup r.id m.rules ≡ none
    → Good p (add_remote sys nets r m)
      × ((add_remote sys nets r m).store ≡ m.store)
      × ((k : Text)
          → lookup k (add_remote sys nets r m).rules
            ≡ (if k == r.id then some r else lookup k m.rules))
unfolding add_remote
add_remote-Good sys nets {p} {m} r allows s free =
    let (good, rules, store) =
      hand_over-Good sys (noted s r free) r _ _ allows
        (ground (arith, lookup-insert r.id r.id r m.rules))
        (ensure_client-Ensured sys nets allows (noted-Agrees s r free) r.credential) in
    (good, store, λ k. ap (lookup k) rules ∙ lookup-insert k r.id r m.rules)
