-- ===== src/Slot/Access.antt =====
-- host/src/access.rs: the access password's record on disk, and the server's half of a login.
use rcdesk.Common.{ℕ, String, Option, none, some, List}

abbrev pub Bytes : Type 0
Bytes = List ℕ

-- base64, URL-safe and without padding, as `base64` has it.
pub record Base64 : Type 0 where
  pub encode : Bytes → String
  pub decode : String → Option Bytes

-- The parts of `opaque_ke` that a login uses. A start draws from the system's generator, a seed here.
pub record Opaque : Type 1 where
  pub ServerSetup : Type 0
  pub ServerRegistration : Type 0
  pub CredentialRequest : Type 0
  pub CredentialFinalization : Type 0
  -- `ServerLogin`, between the two steps
  pub LoginServer : Type 0
  pub read_setup : Bytes → Option ServerSetup
  pub read_registration : Bytes → Option ServerRegistration
  pub read_request : Bytes → Option CredentialRequest
  pub read_finalization : Bytes → Option CredentialFinalization
  -- the state to keep and the response, serialized
  pub start :
      ℕ → ServerSetup → ServerRegistration → CredentialRequest → Option (LoginServer × Bytes)
  -- the session key
  pub finish : LoginServer → CredentialFinalization → Option Bytes

pub record AccessRecord : Type 0 where
  pub server_setup : Bytes
  pub registration : Bytes

pub record AccessRecordFile : Type 0 where
  pub server_setup : String
  pub registration : String

-- What reading access.json comes to.
pub data FileRead : Type 0 where
  not_found read_failed : FileRead
  read : Bytes → FileRead

pub data AccessLoad : Type 0 where
  missing unusable : AccessLoad
  present : AccessRecord → AccessLoad

infixl 5 ◌>>=◌
abbrev ◌>>=◌ : {A B : Type 0} → Option A → (A → Option B) → Option B
none >>= f = none
some a >>= f = f a

module _ (b64 : Base64) where
  unfoldable pub to_file : AccessRecord → AccessRecordFile
  to_file r = record {
    server_setup = b64.encode r.server_setup;
    registration = b64.encode r.registration;
  }

  unfoldable pub from_file : AccessRecordFile → Option AccessRecord
  from_file file = do
    setup ← b64.decode file.server_setup
    registration ← b64.decode file.registration
    some (record { server_setup = setup; registration = registration })

  abbrev pub usable : Option AccessRecord → AccessLoad
  usable none = unusable
  usable (some r) = present r

  -- `load`, with the parser of the file's JSON.
  unfoldable pub load : (Bytes → Option AccessRecordFile) → FileRead → AccessLoad
  unfolding from_file
  load parse not_found = missing
  load parse read_failed = unusable
  load parse (read bytes) = usable (do file ← parse bytes; from_file file)

-- A session key, as its bytes.
abbrev pub SessionKey : Type 0
SessionKey = Bytes

module _ (o : Opaque) where
  unfoldable pub login_start : ℕ → AccessRecord → Bytes → Option (o.LoginServer × Bytes)
  login_start seed r credential_request = do
    setup ← o.read_setup r.server_setup
    registration ← o.read_registration r.registration
    request ← o.read_request credential_request
    o.start seed setup registration request

  unfoldable pub login_finish : o.LoginServer → Bytes → Option SessionKey
  login_finish login credential_finalization = do
    finalization ← o.read_finalization credential_finalization
    o.finish login finalization
