-- ===== src/Api/Credentials.antt =====
-- internal/api/api.go: the rules of a credential that is deleted.
use mathlib.Core.List.{Memᴰ}
use mathlib.Core.Path.{subst}
use port_forwarder.Base.{
  ℕ, ◌<◌, ◌≡◌, refl, sym, ap, ◌∙◌, inl, inr, Bool, true, false, ◌&&◌, ◌||◌, Option, none, some,
  List, [], ◌∷◌, arith, ◌==◌, if◌then◌else◌, All, Option-cases, Bool-cases,
}
use port_forwarder.Base.Int.{max_int}
use port_forwarder.Base.Text.{Text, text_eq}
use port_forwarder.Base.Map.{Map, lookup}
use port_forwarder.Base.Prog.{Ensures, returned, Ensures-bind, Ensures-eq, Ensures-weaken}
use port_forwarder.Engine.{Rule, RemoteBackend, Engine}
use port_forwarder.Engine.Methods.{remove}
use port_forwarder.Engine.Soundness.{IsSound}
use port_forwarder.Engine.Removing.{remove_lem, remove_absent}
use port_forwarder.Engine.Reports.{IsQuiet, told}
use port_forwarder.Engine.Queries.{is_remote, list}
use port_forwarder.Engine.Listing.{IsListing, list_returns, collect-IsListing}
use port_forwarder.Api.{Server, uses, remove_user, remove_users, stop_users}
use port_forwarder.Api.Rules.{lift-Ensures, IsSound-freed}

-- The IDs that the loop removes.
abbrev pub named_user : Text → Text → List Rule → Bool
named_user id k [] = false
named_user id k (r ∷ rs) = k == r.id && uses id r || named_user id k rs

-- What is left of a rule.
abbrev pub without_user : Text → Option Rule → Option Rule
without_user id none = none
without_user id (some r) = if uses id r then none else some r

-- `List` leaves the backend alone, too.
list_keeps :
    {B : Type 0} {n : ℕ} {e : Engine B}
    → IsSound n e
    → n < max_int
    → Ensures
        (λ out e'.
          IsListing e.rules out × IsSound n e' × (e'.rules ≡ e.rules) × (e'.remote ≡ e.remote))
        (list e)
list_keeps sound room =
    Ensures-eq (list_returns sound room)
      (returned _ _ (collect-IsListing sound, IsSound-freed sound, refl, refl))

-- What holds of the backend, and goes on holding when it is told of a removal.
module _ {B : Type 0} (be : RemoteBackend B) (quiet : IsQuiet be) (Stays : Option B → Type 0)
    (stays : (id : Text) (o : Option B) → Stays o → Stays (told be id o)) where
  told_or_not :
      (far : Bool) (id : Text) (o : Option B) → Stays o → Stays (if far then told be id o else o)
  told_or_not true id o h = stays id o h
  told_or_not false id o h = h

  remove_any :
      {n : ℕ} (e : Engine B) (id : Text)
      → IsSound n e
      → Stays e.remote
      → Ensures
          (λ _ e'.
            IsSound n e'
            × Stays e'.remote
            × ((k : Text) → lookup k e'.rules ≡ (if k == id then none else lookup k e.rules)))
          (remove be id e)
  remove_any e id sound held = elim (Option-cases (lookup id e.rules)) [
    | inl absent ↦
        Ensures-eq (remove_absent be e id sound.free absent)
          (returned _ _ (IsSound-freed sound, held, λ k. ground (arith, absent)))
    | inr (r, found) ↦ Ensures-weaken (remove_lem be sound id found quiet) (λ _ e' done. (
      done.1.sound,
      subst Stays (sym done.1.remote) (told_or_not (is_remote r) id e.remote held),
      done.1.rules,
    ))
  ]

  remove_user_lem :
      {n : ℕ} (id : Text) (r : Rule) (srv : Server B)
      → IsSound n srv.engine
      → Stays srv.engine.remote
      → Ensures
          (λ _ srv'.
            IsSound n srv'.engine
            × Stays srv'.engine.remote
            × (srv'.rules ≡ srv.rules)
            × ((k : Text)
                → lookup k srv'.engine.rules
                  ≡ (if k == r.id && uses id r then none else lookup k srv.engine.rules)))
          (remove_user be id r srv)
  unfolding remove_user
  remove_user_lem {n} id r srv sound held = elim (Bool-cases (uses id r)) [
    | inl user ↦ rw user (
        Ensures-bind _ (lift-Ensures srv (remove_any srv.engine r.id sound held)) (λ _ srv1 done.
          returned tt srv1 (done.0.0, done.0.1, done.1, λ k. done.0.2 k ∙ ground arith)))
    | inr other ↦ rw other (returned tt srv (sound, held, refl, λ k. ground arith))
  ]

  remove_users_lem :
      {n : ℕ} (id : Text) (rs : List Rule) (srv : Server B)
      → IsSound n srv.engine
      → Stays srv.engine.remote
      → Ensures
          (λ _ srv'.
            IsSound n srv'.engine
            × Stays srv'.engine.remote
            × (srv'.rules ≡ srv.rules)
            × ((k : Text)
                → lookup k srv'.engine.rules
                  ≡ (if named_user id k rs then none else lookup k srv.engine.rules)))
          (remove_users be id rs srv)
  unfolding remove_users
  remove_users_lem id [] srv sound held = returned _ _ (sound, held, refl, λ k. refl)
  remove_users_lem id (r ∷ rs) srv sound held =
      Ensures-bind _ (remove_user_lem id r srv sound held) (λ _ srv1 one.
        Ensures-weaken (remove_users_lem id rs srv1 one.0 one.1) (λ _ srv2 rest.
          (rest.0, rest.1, rest.2 ∙ one.2, λ k. rest.3 k ∙ ground (arith, one.3 k))))

  -- A rule of the list that uses the credential.
  named_user_of :
      (id : Text) (r : Rule) (rs : List Rule)
      → Memᴰ r rs
      → uses id r ≡ true
      → named_user id r.id rs ≡ true
  named_user_of id r [] m u = elim m [ ]
  named_user_of id r (x ∷ rs) (Memᴰ.head same) u = rw (← same) (ground (arith, u))
  named_user_of id r (x ∷ rs) (Memᴰ.tail m) u = ground (arith, named_user_of id r rs m u)

  -- No rule of the list has the ID of one that does not use it.
  not_named_user :
      (id : Text) (rules : Map Rule) (k : Text) (r : Rule) (rs : List Rule)
      → All (λ x. lookup x.id rules ≡ some x) rs
      → lookup k rules ≡ some r
      → uses id r ≡ false
      → named_user id k rs ≡ false
  not_named_user id rules k r [] all found u = refl
  not_named_user id rules k r (x ∷ rs) (one, all) found u =
      let others = not_named_user id rules k r rs all found u in
      elim (text_eq.dec k x.id) [
        | yes mine ↦
            let own : lookup k rules ≡ some x = ap (λ j. lookup j rules) mine ∙ one in
            let same : some r ≡ some x = sym found ∙ own in
            ground (arith, ap (without_user id) same, u)
        | no elsewhere ↦ ground (arith, others)
      ]

  left_of :
      {rules : Map Rule} (id : Text) (out : List Rule) (k : Text)
      → IsListing rules out
      → (keyed : (j : Text) (r : Rule) → lookup j rules ≡ some r → r.id ≡ j)
      → (if named_user id k out then none else lookup k rules) ≡ without_user id (lookup k rules)
  left_of {rules} id out k listing keyed = elim (Option-cases (lookup k rules)) [
    | inl absent ↦ rw absent (ground arith)
    | inr (r, found) ↦ elim (Bool-cases (uses id r)) [
      | inl user ↦
          rw
            (
              found,
              user,
              ap (λ j. named_user id j out) (sym (keyed k r found))
                  ∙ named_user_of id r out (listing.complete k r found) user,
            )
            refl
      | inr other ↦
          rw (found, other, not_named_user id rules k r out listing.sound found other) refl
    ]
  ]

  -- `deleteCredential`, up to the removal of the credential itself, with a sound engine whose
  -- counter is below the largest int and a quiet backend: the remote rules that name the
  -- credential are gone from the engine, and every other rule is as it was. The store of rules is
  -- as it was: what it has in the file is not saved again.
  pub stop_users_lem :
      {n : ℕ} (id : Text) (srv : Server B)
      → IsSound n srv.engine
      → n < max_int
      → Stays srv.engine.remote
      → Ensures
          (λ _ srv'.
            IsSound n srv'.engine
            × Stays srv'.engine.remote
            × (srv'.rules ≡ srv.rules)
            × ((k : Text)
                → lookup k srv'.engine.rules ≡ without_user id (lookup k srv.engine.rules)))
          (stop_users be id srv)
  unfolding stop_users
  stop_users_lem id srv sound room held =
      Ensures-bind _ (lift-Ensures srv (list_keeps sound room)) (λ out srv1 listed.
        Ensures-weaken (remove_users_lem id out srv1 listed.0.1 (subst Stays (sym listed.0.3) held))
          (λ _ srv2 rest. (
            rest.0,
            rest.1,
            rest.2 ∙ listed.1,
            λ k.
                rest.3 k
                ∙ ap (λ m. if named_user id k out then none else lookup k m) listed.0.2
                ∙ left_of id out k listed.0.0 sound.inv.numbering.keyed,
          )))
