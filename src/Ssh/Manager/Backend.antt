-- ===== src/Ssh/Manager/Backend.antt =====
-- internal/ssh/manager.go and main.go: the SSH manager as the engine's backend. The callback that
-- `runLocal` gives to the manager writes to the log, so the engine gets no report.
use mathlib.Core.Path.{subst}
use port_forwarder.Base.{
  ◌+◌, ◌≤◌, ◌≡◌, refl, sym, ◌∙◌, ◌⊎◌, inl, inr, true, some, List, [], length, contains,
}
use port_forwarder.Base.Int.{max_int}
use port_forwarder.Base.Text.{Text, text_eq}
use port_forwarder.Base.Map.{lookup}
use port_forwarder.Base.Prog.{Ensures}
use port_forwarder.Net.{Net}
use port_forwarder.Engine.{Rule, RemoteBackend, Engine}
use port_forwarder.Engine.Reports.{IsQuiet}
use port_forwarder.Engine.Table.{Table, Op}
use port_forwarder.Engine.Refinement.{Implements, run}
use port_forwarder.Engine.Mirroring.{Keeper, far_value, Mirrored, run-Mirrors}
use port_forwarder.Ssh.Auth.{System, Method, ok, credential_auth}
use port_forwarder.Net.HostPort.{normalize_host}
use port_forwarder.Ssh.Credentials.{Credential, get}
use port_forwarder.Ssh.Client.{Client}
use port_forwarder.Ssh.Manager.{Manager, add_remote, remove_remote}
use port_forwarder.Ssh.Manager.Serving.{Policy, any_policy, Good}
use port_forwarder.Ssh.Manager.Adding.{IsUnavailable, Allows, add_remote-Good}
use port_forwarder.Ssh.Manager.Removing.{
  remove_remote-Good, rules-remove_remote, store-remove_remote,
}

module _ {Signer : Type 0} (sys : System Signer) (nets : Text → Net) where
  abbrev pub manager_backend : RemoteBackend Manager
  manager_backend = record {
    add_remote = λ r m. (add_remote sys nets r m, []);
    remove_remote = λ id m. (remove_remote id m, []);
  }

  pub manager_backend-IsQuiet : IsQuiet manager_backend
  manager_backend-IsQuiet = record { add_good = λ r m. tt; remove_silent = λ id m. refl }

  -- From a manager on, a rule goes unserved only if it was reported before or its credential is
  -- unavailable, and a client is one that was there or is for the host of an available credential.
  abbrev pub since : Manager → Policy
  since was = record {
    unserved = λ k r. (contains was.refused k ≡ true) ⊎ IsUnavailable sys was.store r.credential;
    dialled = λ cred addr.
        ((cl : Client) × (lookup cred was.clients ≡ some cl) × (cl.addr ≡ addr))
        ⊎ ((c : Credential) × (methods : List (Method Signer)) × (get cred was.store ≡ some c)
            × (credential_auth sys (some c) ≡ ok methods)
            × (addr ≡ normalize_host c.host));
  }

  pub since-Allows : (was m : Manager) → m.store ≡ was.store → Allows sys m.store (since was)
  since-Allows was m same =
      subst (λ st. Allows sys st (since was)) (sym same)
        (record {
          unserved = λ k r out. inr out;
          dialled = λ cred c methods stored auth. inr (c, methods, stored, auth, refl);
        })

  pub since-Good : {m : Manager} → Good any_policy m → Good (since m) m
  since-Good s = record {
    nodup = s.nodup;
    by = s.by;
    owns = s.owns;
    covered = λ k r found is. elim (s.covered k r found is) [
      | inl (out, _) ↦ inl (out, inl out)
      | inr has ↦ inr has
    ];
    made = λ cred cl at. inl (cl, at, refl);
  }

  -- The manager keeps the rule as it was handed over, its maps agree, and its store is as it was.
  unfoldable pub manager_keeper : Manager → Keeper manager_backend Rule
  manager_keeper was = record {
    of = λ r. r;
    has = λ m k. lookup k m.rules;
    Good = λ m. Good (since was) m × (m.store ≡ was.store);
    add_has = λ r m (good, same) free.
        let (good', store, rules) =
          add_remote-Good sys nets r (since-Allows was m same) good free in
        ((good', store ∙ same), rules);
    remove_has = λ id m (good, same). (
      (remove_remote-Good good id, store-remove_remote id m ∙ same),
      λ k. rules-remove_remote id k m,
    );
  }

  -- Any sequence of calls of `Add`, `Update` and `Remove`, on an engine that is sound and holds the
  -- rules of a table, with the SSH manager as its backend, returns, as long as the counter does not
  -- reach the largest int, with the table's answers, and the engine holds the rules of the table
  -- behind those calls. If the manager's maps agreed and held just the table's remote rules, so they
  -- do of the table behind the calls. Each rule is then with the client of its own credential, or it
  -- was reported and either was before the calls or has an unavailable credential: the store has none
  -- of that ID, or one that gives no authentication methods. No client has any other rule, and each
  -- client was there before or is for the host of a credential that the store has and that gives
  -- methods. The store is as it was.
  pub manager-Mirrors :
      (ops : List Op) {t : Table} {e : Engine Manager} {m : Manager}
      → Implements t e
      → t.next + length ops ≤ max_int
      → e.remote ≡ some m
      → Good any_policy m
      → ((k : Text) → lookup k m.rules ≡ far_value (manager_keeper m) k (t.entries k))
      → Ensures (Mirrored (manager_keeper m) ops t) (run manager_backend ops e)
  unfolding manager_keeper
  manager-Mirrors ops {t} {e} {m} imp room is_some good values =
      run-Mirrors (manager_keeper m) manager_backend-IsQuiet ops imp room is_some
        (record { good = (since-Good good, refl); values = values })
