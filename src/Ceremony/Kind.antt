-- ===== src/Ceremony/Kind.antt =====
-- store/ceremony/kind.go: the kinds of ceremony and their constants.
pub mod Limits
pub mod Bounds
use egauth.Base.{
  ℕ, ◌+◌, ◌-◌, ◌*◌, Bool, true, false, not, ◌&&◌, if◌then◌else◌, ltb, eqb, List, [], ◌∷◌,
}
use egauth.Core.Policy.{second}

-- `no_kind` stands for each byte that is no declared kind.
pub data Kind : Type 0 where
  mfa_flow passkey_registration mfa_passkey magic_link email_code sms_code : Kind
  phone_verification password_reset pending_registration email_verification email_change
        recovery_email :
      Kind
  security_revert exchange discoverable_passkey username_first_passkey oauth_state external_login :
      Kind
  password_reset_code : Kind
  no_kind : Kind

unfoldable pub kind_discrete : Discrete Kind
kind_discrete = hlevel

pub data ScopeClass : Type 0 where
  no_scope subject_scoped identifier_scoped anonymous : ScopeClass

unfoldable pub scope_discrete : Discrete ScopeClass
scope_discrete = hlevel

pub data SecretClass : Type 0 where
  no_secret high_entropy short_code : SecretClass

abbrev pub minute : ℕ
minute = 60 * second

abbrev pub all_kinds : List Kind
all_kinds =
    mfa_flow ∷ passkey_registration ∷ mfa_passkey ∷ magic_link ∷ email_code ∷ sms_code
    ∷ phone_verification ∷ password_reset ∷ pending_registration ∷ email_verification ∷ email_change
    ∷ recovery_email ∷ security_revert ∷ exchange ∷ discoverable_passkey ∷ username_first_passkey
    ∷ oauth_state ∷ external_login ∷ password_reset_code ∷ []

unfoldable pub kind_valid : Kind → Bool
kind_valid mfa_flow = true
kind_valid passkey_registration = true
kind_valid mfa_passkey = true
kind_valid magic_link = true
kind_valid email_code = true
kind_valid sms_code = true
kind_valid phone_verification = true
kind_valid password_reset = true
kind_valid pending_registration = true
kind_valid email_verification = true
kind_valid email_change = true
kind_valid recovery_email = true
kind_valid security_revert = true
kind_valid exchange = true
kind_valid discoverable_passkey = true
kind_valid username_first_passkey = true
kind_valid oauth_state = true
kind_valid external_login = true
kind_valid password_reset_code = true
kind_valid no_kind = false

unfoldable pub kind_scope : Kind → ScopeClass
kind_scope mfa_flow = subject_scoped
kind_scope passkey_registration = subject_scoped
kind_scope mfa_passkey = subject_scoped
kind_scope magic_link = identifier_scoped
kind_scope email_code = identifier_scoped
kind_scope sms_code = identifier_scoped
kind_scope phone_verification = subject_scoped
kind_scope password_reset = subject_scoped
kind_scope pending_registration = identifier_scoped
kind_scope email_verification = subject_scoped
kind_scope email_change = subject_scoped
kind_scope recovery_email = subject_scoped
kind_scope security_revert = identifier_scoped
kind_scope exchange = subject_scoped
kind_scope discoverable_passkey = anonymous
kind_scope username_first_passkey = anonymous
kind_scope oauth_state = anonymous
kind_scope external_login = anonymous
kind_scope password_reset_code = subject_scoped
kind_scope no_kind = no_scope

unfoldable pub stateless : Kind → Bool
stateless k = eqb scope_discrete (kind_scope k) anonymous

unfoldable pub secret_class : Kind → SecretClass
secret_class mfa_flow = high_entropy
secret_class passkey_registration = high_entropy
secret_class mfa_passkey = high_entropy
secret_class magic_link = high_entropy
secret_class email_code = short_code
secret_class sms_code = short_code
secret_class phone_verification = short_code
secret_class password_reset = high_entropy
secret_class pending_registration = high_entropy
secret_class email_verification = high_entropy
secret_class email_change = high_entropy
secret_class recovery_email = high_entropy
secret_class security_revert = high_entropy
secret_class exchange = high_entropy
secret_class discoverable_passkey = high_entropy
secret_class username_first_passkey = high_entropy
secret_class oauth_state = high_entropy
secret_class external_login = high_entropy
secret_class password_reset_code = short_code
secret_class no_kind = no_secret

unfoldable pub admits_session : Kind → Bool
admits_session mfa_flow = true
admits_session passkey_registration = false
admits_session mfa_passkey = true
admits_session magic_link = true
admits_session email_code = true
admits_session sms_code = true
admits_session phone_verification = false
admits_session password_reset = false
admits_session pending_registration = true
admits_session email_verification = false
admits_session email_change = false
admits_session recovery_email = false
admits_session security_revert = false
admits_session exchange = true
admits_session discoverable_passkey = true
admits_session username_first_passkey = true
admits_session oauth_state = true
admits_session external_login = true
admits_session password_reset_code = false
admits_session no_kind = false
