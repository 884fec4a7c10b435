-- ===== src/Ssh/Auth.antt =====
-- internal/ssh/auth.go: the authentication methods of a credential. The key files, the environment,
-- the agent's socket and the SSH library's parser of keys are a parameter.
pub mod Methods
use port_forwarder.Base.{
  Bool, true, false, ◌&&◌, not, Option, none, some, List, [], ◌∷◌, ◌++◌, ◌==◌, if◌then◌else◌,
}
use port_forwarder.Base.Text.{Text, codes, text_eq}
use port_forwarder.Ssh.Credentials.{Credential}

-- `read_file` is `os.ReadFile`, `parse_key` and `parse_key_with` are the library's two parsers of a
-- private key, `auth_sock` is the variable SSH_AUTH_SOCK, and `dial_agent` dials its socket.
pub record System (Signer : Type 0) : Type 0 where
  pub read_file : Text → Option Text
  pub parse_key : Text → Option Signer
  pub parse_key_with : Text → Text → Option Signer
  pub auth_sock : Text
  pub dial_agent : Text → Bool

-- `ssh.AuthMethod`, as far as the program makes any.
pub data Method (Signer : Type 0) : Type 0 where
  public_keys : Signer → Method Signer
  password : Text → Method Signer
  agent_keys : Text → Method Signer

pub data Error : Type 0 where
  path_required sock_not_set agent_failed empty_credential : Error
  read_key_failed parse_key_failed no_password not_configured : Text → Error
  unknown_type : Text → Text → Error

pub data Result (A : Type 0) : Type 0 where
  ok : A → Result A
  failed : Error → Result A

abbrev pub is_empty : Text → Bool
is_empty [] = true
is_empty (c ∷ s) = false

unfoldable pub auth_password : Text
auth_password = codes "password"

unfoldable pub auth_key : Text
auth_key = codes "key"

-- `PasswordAuth`
abbrev pub password_auth : {Signer : Type 0} → Text → Method Signer
password_auth p = password p

module _ {Signer : Type 0} where
  abbrev pub as_keys : Text → Option Signer → Result (Method Signer)
  as_keys path none = failed (parse_key_failed path)
  as_keys path (some signer) = ok (public_keys signer)

  abbrev pub or_passphrase :
      System Signer → Text → Text → Text → Option Signer → Result (Method Signer)
  or_passphrase sys path passphrase content (some signer) = ok (public_keys signer)
  or_passphrase sys path passphrase content none =
      if is_empty passphrase
      then failed (parse_key_failed path)
      else as_keys path (sys.parse_key_with content passphrase)

  abbrev pub key_read : System Signer → Text → Text → Option Text → Result (Method Signer)
  key_read sys path passphrase none = failed (read_key_failed path)
  key_read sys path passphrase (some content) =
      or_passphrase sys path passphrase content (sys.parse_key content)

  -- `KeyAuth`
  unfoldable pub key_auth : System Signer → Text → Text → Result (Method Signer)
  key_auth sys path passphrase =
      if is_empty path
      then failed path_required
      else key_read sys path passphrase (sys.read_file path)

  -- `AgentAuth`
  unfoldable pub agent_auth : System Signer → Result (Method Signer)
  agent_auth sys =
      if is_empty sys.auth_sock
      then failed sock_not_set
      else if sys.dial_agent sys.auth_sock
      then ok (agent_keys sys.auth_sock)
      else failed agent_failed

  abbrev pub agent_methods : Result (Method Signer) → List (Method Signer)
  agent_methods (ok m) = m ∷ []
  agent_methods (failed x) = []

  abbrev pub with_key :
      List (Method Signer) → Result (Method Signer) → Result (List (Method Signer))
  with_key methods (failed x) = failed x
  with_key methods (ok m) = ok (methods ++ (m ∷ []))

  abbrev pub some_methods : Text → List (Method Signer) → Result (List (Method Signer))
  some_methods name [] = failed (not_configured name)
  some_methods name (m ∷ ms) = ok (m ∷ ms)

  -- The type of the credential is looked at only when there is a path.
  abbrev pub key_methods :
      System Signer → Credential → List (Method Signer) → Result (List (Method Signer))
  key_methods sys c methods =
      if is_empty c.key_path
      then some_methods c.name methods
      else if not (is_empty c.auth_type) && not (c.auth_type == auth_key)
      then failed (unknown_type c.name c.auth_type)
      else with_key methods (key_auth sys c.key_path c.passphrase)

  abbrev pub password_methods : Credential → Result (List (Method Signer))
  password_methods c =
      if is_empty c.password
      then failed (no_password c.name)
      else ok (password_auth c.password ∷ [])

  -- `CredentialAuth`; the last test of the source is in `some_methods`, as a key is a method.
  unfoldable pub credential_auth : System Signer → Option Credential → Result (List (Method Signer))
  unfolding key_auth agent_auth auth_password auth_key
  credential_auth sys none = failed empty_credential
  credential_auth sys (some c) =
      if c.auth_type == auth_password
      then password_methods c
      else key_methods sys c (agent_methods (agent_auth sys))
