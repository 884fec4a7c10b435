-- ===== src/Ssh/Auth/Methods.antt =====
-- internal/ssh/auth.go: which methods a credential gives.
use mathlib.Core.Path.{subst}
use port_forwarder.Base.{
  ◌≡◌, ◌≢◌, sym, ◌∙◌, Bool, true, false, ◌&&◌, not, Option, none, some, List, [], ◌∷◌, ◌++◌, ◌==◌,
  arith, if◌then◌else◌, All, Bool-cases, inl, inr,
}
use port_forwarder.Base.Text.{Text, text_eq}
use port_forwarder.Ssh.Credentials.{Credential}
use port_forwarder.Ssh.Auth.{
  System, Method, password, Result, ok, failed, is_empty, auth_password, auth_key, as_keys,
  or_passphrase, key_read, key_auth, agent_auth, agent_methods, with_key, unknown_type,
  some_methods, key_methods, password_methods, credential_auth,
}

abbrev pub IsKeyed : {Signer : Type 0} → Method Signer → Type 0
IsKeyed (password p) = ⊥
IsKeyed _ = Unit

abbrev KeyedResult : {Signer : Type 0} → Result (Method Signer) → Type 0
KeyedResult (ok m) = IsKeyed m
KeyedResult (failed x) = Unit

abbrev AllKeyed : {Signer : Type 0} → Result (List (Method Signer)) → Type 0
AllKeyed (ok ms) = All IsKeyed ms × (ms ≢ [])
AllKeyed (failed x) = Unit

if-elim : {A : Type 0} (P : A → Type 0) (b : Bool) {x y : A} → P x → P y → P (if b then x else y)
if-elim P true p q = p
if-elim P false p q = q

cons-ne-nil : {A : Type 0} (m : A) (ms : List A) → m ∷ ms ≢ []
cons-ne-nil m ms e = cc

append-ne-nil : {A : Type 0} (ms : List A) (m : A) → ms ++ (m ∷ []) ≢ []
append-ne-nil [] m = cons-ne-nil m []
append-ne-nil (k ∷ ms) m = cons-ne-nil k (ms ++ (m ∷ []))

module _ {Signer : Type 0} (sys : System Signer) where
  as_keys-Keyed : (path : Text) (o : Option Signer) → KeyedResult (as_keys path o)
  as_keys-Keyed path none = tt
  as_keys-Keyed path (some signer) = tt

  or_passphrase-Keyed :
      (path passphrase content : Text) (o : Option Signer)
      → KeyedResult (or_passphrase sys path passphrase content o)
  or_passphrase-Keyed path passphrase content (some signer) = tt
  or_passphrase-Keyed path passphrase content none =
      if-elim KeyedResult (is_empty passphrase) tt
        (as_keys-Keyed path (sys.parse_key_with content passphrase))

  key_read-Keyed :
      (path passphrase : Text) (o : Option Text) → KeyedResult (key_read sys path passphrase o)
  key_read-Keyed path passphrase none = tt
  key_read-Keyed path passphrase (some content) =
      or_passphrase-Keyed path passphrase content (sys.parse_key content)

  key_auth-Keyed : (path passphrase : Text) → KeyedResult (key_auth sys path passphrase)
  unfolding key_auth
  key_auth-Keyed path passphrase =
      if-elim KeyedResult (is_empty path) tt (key_read-Keyed path passphrase (sys.read_file path))

  agent_auth-Keyed : KeyedResult (agent_auth sys)
  unfolding agent_auth
  agent_auth-Keyed =
      if-elim KeyedResult (is_empty sys.auth_sock) tt
        (if-elim KeyedResult (sys.dial_agent sys.auth_sock) tt tt)

  agent_methods-All : (r : Result (Method Signer)) → KeyedResult r → All IsKeyed (agent_methods r)
  agent_methods-All (ok m) h = (h, tt)
  agent_methods-All (failed x) h = tt

  append-All :
      (ms : List (Method Signer)) (m : Method Signer)
      → All IsKeyed ms
      → IsKeyed m
      → All IsKeyed (ms ++ (m ∷ []))
  append-All [] m hs h = (h, tt)
  append-All (k ∷ ms) m hs h = (hs.0, append-All ms m hs.1 h)

  with_key-All :
      (ms : List (Method Signer)) (r : Result (Method Signer))
      → All IsKeyed ms
      → KeyedResult r
      → AllKeyed (with_key ms r)
  with_key-All ms (failed x) hs h = tt
  with_key-All ms (ok m) hs h = (append-All ms m hs h, append-ne-nil ms m)

  some_methods-All :
      (name : Text) (ms : List (Method Signer)) → All IsKeyed ms → AllKeyed (some_methods name ms)
  some_methods-All name [] hs = tt
  some_methods-All name (m ∷ ms) hs = (hs, cons-ne-nil m ms)

  key_methods-All :
      (c : Credential) (ms : List (Method Signer))
      → All IsKeyed ms
      → AllKeyed (key_methods sys c ms)
  key_methods-All c ms hs = if-elim AllKeyed (is_empty c.key_path) (some_methods-All c.name ms hs) (
      if-elim AllKeyed (not (is_empty c.auth_type) && not (c.auth_type == auth_key)) tt (
        with_key-All ms (key_auth sys c.key_path c.passphrase) hs
          (key_auth-Keyed c.key_path c.passphrase)))

-- What a credential may be used for.
pub record Authorised {Signer : Type 0} (c : Credential) (ms : List (Method Signer)) : Type 0 where
  pub any : ms ≢ []
  pub own : c.auth_type ≡ auth_password → ms ≡ password c.password ∷ []
  pub others : c.auth_type ≢ auth_password → All IsKeyed ms
  pub known :
      c.auth_type ≢ auth_password
      → c.auth_type ≢ auth_key
      → is_empty c.auth_type ≡ false
      → is_empty c.key_path ≡ true

module _ {Signer : Type 0} (sys : System Signer) (c : Credential) where
  password_only :
      (ms : List (Method Signer)) → password_methods c ≡ ok ms → ms ≡ password c.password ∷ []
  password_only ms e = elim (Bool-cases (is_empty c.password)) [
    | inl none_given ↦ absurd (grind (arith, rw none_given at e))
    | inr given ↦ grind (arith, rw given at e)
  ]

  password-Authorised :
      (ms : List (Method Signer))
      → c.auth_type ≡ auth_password
      → password_methods c ≡ ok ms
      → Authorised c ms
  password-Authorised ms is e = record {
    any = rw (password_only ms e) (cons-ne-nil (password c.password) []);
    own = λ h. password_only ms e;
    others = λ is_not. absurd (is_not is);
    known = λ is_not. absurd (is_not is);
  }

  -- An unknown type, with a path, is refused.
  unknown_refused :
      (ms : List (Method Signer))
      → c.auth_type ≢ auth_key
      → is_empty c.auth_type ≡ false
      → is_empty c.key_path ≡ false
      → key_methods sys c ms ≡ failed (unknown_type c.name c.auth_type)
  unknown_refused ms other given path = rw (path, given) (ground arith)

  key-Authorised :
      (ms : List (Method Signer))
      → c.auth_type ≢ auth_password
      → key_methods sys c (agent_methods (agent_auth sys)) ≡ ok ms
      → Authorised c ms
  key-Authorised ms is_not e =
      let (keyed, any) =
        subst AllKeyed e (
          key_methods-All sys c _
            (agent_methods-All sys (agent_auth sys) (agent_auth-Keyed sys))) in
      record {
        any = any;
        own = λ is. absurd (is_not is);
        others = λ h. keyed;
        known = λ h other given. elim (Bool-cases (is_empty c.key_path)) [
          | inl no_path ↦ no_path
          | inr path ↦ absurd (grind (arith, sym (unknown_refused _ other given path) ∙ e))
        ];
      }

  credential_auth-password :
      c.auth_type ≡ auth_password → credential_auth sys (some c) ≡ password_methods c
  unfolding credential_auth
  credential_auth-password is = ground arith

  credential_auth-key :
      c.auth_type ≢ auth_password
      → credential_auth sys (some c) ≡ key_methods sys c (agent_methods (agent_auth sys))
  unfolding credential_auth
  credential_auth-key is_not = ground arith

  -- The methods that a credential gives, when it gives any: there is at least one; a credential of
  -- type "password" gives its own password and nothing else; a credential of any other type gives no
  -- password; and one whose type is not known has no path of a key.
  pub credential_auth_lem :
      (ms : List (Method Signer)) → credential_auth sys (some c) ≡ ok ms → Authorised c ms
  credential_auth_lem ms e = elim (text_eq.dec c.auth_type auth_password) [
    | yes is ↦ password-Authorised ms is (sym (credential_auth-password is) ∙ e)
    | no is_not ↦ key-Authorised ms is_not (sym (credential_auth-key is_not) ∙ e)
  ]
