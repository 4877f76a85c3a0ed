-- ===== src/Tests/Login.antt =====
-- A login with a password and a TOTP code, the session it starts, and what may follow.
use egauth.Base.{
  ℕ, ◌+◌, ◌*◌, true, false, ◌≡◌, refl, [], ◌∷◌, Bytes, codes, ok, arith, bytes_discrete, ℕ_discrete,
}
use egauth.Core.Factor.{
  password, totp, factor_table, valid, role, code, sort_factors, insert_factor, code_le, leb_bytes,
  contains, add_new, union_factors, has_role, multi_factor, role_discrete, factor_discrete,
}
use egauth.Core.Policy.{
  Subject, AccountState, usable, MfaDecision, mfa_required, remember_requested,
  remember_user_choice, second, transport_cookies,
}
use egauth.Core.Verified.{
  Verified, VerifiedSpec, new_verified, verified_of, check_verified_shape, count_roles, tally,
  check_combination,
}
use egauth.Core.Pending.{
  Pending, subject_discrete, zero_pending, new_pending, remember_decision, add, add_binding,
  add_provider, factor_set, factor_set_from, credential_uses, verified_uses, credential_clash,
  pending_primary_at, pending_second_at, latest_from,
}
use egauth.Core.Attrs.{SessionAttrs}
use egauth.Core.Transitions.{admit, admitted, admitted_attrs}
use egauth.Core.Reach.{Journey, Live, begins, adds, admits}
use egauth.Core.Codec.{unix_epoch}

abbrev pub start_at : ℕ
start_at = unix_epoch + 1700000000 * second

abbrev pub acme : Bytes
acme = codes "acme"

abbrev pub user : Subject
user = record { tenant = acme; user = 7 }

abbrev pub account : AccountState
account = record {
  account_exists = true;
  disabled = false;
  deleted = false;
  must_change = false;
  email_verified = true;
  epoch = 3;
}

abbrev pub opened : Pending
opened = record zero_pending {
  version = 1;
  tenant = acme;
  remember = true;
  transport = transport_cookies;
  expires_at = start_at + 900 * second;
}

abbrev pub password_spec : VerifiedSpec
password_spec = record {
  subject = user;
  factors = password ∷ [];
  credential_id = [];
  identifies = true;
  provider = [];
  at = start_at + 5 * second;
}

abbrev pub totp_spec : VerifiedSpec
totp_spec = record {
  subject = user;
  factors = totp ∷ [];
  credential_id = [];
  identifies = false;
  provider = [];
  at = start_at + 9 * second;
}

abbrev pub password_verified : Verified
password_verified = record {
  subject = user;
  factors = password ∷ [];
  credential_id = [];
  identifies = true;
  provider = [];
  at = start_at + 5 * second;
}

abbrev pub totp_verified : Verified
totp_verified = record {
  subject = user;
  factors = totp ∷ [];
  credential_id = [];
  identifies = false;
  provider = [];
  at = start_at + 9 * second;
}

abbrev pub half : Pending
half = record opened { subject = user; epoch_at_bind = 3; verified = password_verified ∷ [] }

abbrev pub full : Pending
full = record half { verified = password_verified ∷ totp_verified ∷ [] }

abbrev pub mfa : MfaDecision
mfa = record { loaded = true; enrolled = totp ∷ [] }

abbrev pub session : SessionAttrs
session = record {
  version = 1;
  lineage = 99;
  subject = user;
  factors = password ∷ totp ∷ [];
  credential_ids = [];
  primary_at = start_at + 5 * second;
  second_at = start_at + 9 * second;
  epoch = 3;
  must_change = false;
  remember = true;
  return_to = [];
  transport = transport_cookies;
  provider = [];
  created_at = start_at + 10 * second;
  claims_fetched_at = start_at + 10 * second;
}

opened-eq :
    new_pending acme remember_requested [] transport_cookies remember_user_choice start_at
    ≡ ok opened
unfolding new_pending remember_decision
opened-eq = refl

password-new_verified : new_verified password_spec ≡ ok password_verified
unfolding new_verified verified_of check_verified_shape count_roles tally check_combination valid
    role factor_table contains sort_factors insert_factor factor_discrete
password-new_verified = refl

totp-new_verified : new_verified totp_spec ≡ ok totp_verified
unfolding new_verified verified_of check_verified_shape count_roles tally check_combination valid
    role factor_table contains sort_factors insert_factor factor_discrete
totp-new_verified = refl

add-half : add opened password_verified account ≡ ok half
unfolding add add_binding add_provider has_role role factor_table role_discrete credential_uses
    verified_uses credential_clash bytes_discrete
add-half = refl

add-full : add half totp_verified account ≡ ok full
unfolding add add_binding add_provider has_role role factor_table role_discrete credential_uses
    verified_uses credential_clash bytes_discrete subject_discrete ℕ_discrete
add-full = refl

admit-session : admit full account mfa 99 (start_at + 10 * second) ≡ ok (admitted session)
unfolding admit admitted_attrs usable mfa_required has_role role factor_table role_discrete
    multi_factor contains factor_discrete factor_set factor_set_from union_factors add_new
    sort_factors insert_factor code_le leb_bytes code credential_uses verified_uses
    pending_primary_at pending_second_at latest_from
admit-session = refl

half-Journey : Journey half
half-Journey =
    adds opened password_spec password_verified account
      (begins acme remember_requested [] transport_cookies remember_user_choice start_at opened-eq)
      password-new_verified add-half

pub full-Journey : Journey full
full-Journey = adds half totp_spec totp_verified account half-Journey totp-new_verified add-full

pub session-Live : Live session
session-Live =
    admits full account mfa 99 (start_at + 10 * second) full-Journey (ground arith) admit-session
