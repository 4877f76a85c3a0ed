-- ===== src/Tests/Codec.antt =====
-- The session of Login, sealed and unsealed.
use egauth.Base.{◌≡◌, refl, [], ◌∷◌, Bytes, ok, err, arith, bytes_discrete}
use egauth.Core.Factor.{
  factor_table, valid, role, code, contains, has_role, role_discrete, factor_discrete, find_code,
  factor_by_code, code_le, leb_bytes,
}
use egauth.Core.Policy.{malformed, parse_tenant_id}
use egauth.Core.Verified.{check_verified_shape, count_roles, tally, check_combination}
use egauth.Core.Attrs.{check_attrs}
use egauth.Core.Codec.{
  uvarint_rounds, append_uvarint, uvarint_from, uvarint, be_bytes, be_value, put_bytes, put_u64,
  put_bool, put_uuid, to_unix_nano, from_unix_nano, put_time, put_subject, put_codes, put_factors,
  get_count, get_bytes, get_fixed, get_u64, get_bool, get_uuid, get_time, get_transport, tenant_ok,
  get_subject, known, get_factor, breaks_order, get_factors_from, get_factors,
}
use egauth.Core.Codec.Fields.{
  put_each_use, put_uses, put_attrs, put_verified, put_each_verified, put_pending, get_pending,
  get_entries, get_each_verified, get_verified,
}
use egauth.Core.Sealed.{
  seal, unseal, finish, new_decoder, check_pending, seal_pending, unseal_pending,
}
use egauth.Core.Sealed.Attrs.{IsSealable}
use egauth.Core.Sealed.RoundTrip.{unseal-seal, unseal_other_tag}
use egauth.Core.Reach.Canonical.{Live-unseal-seal}
use egauth.Tests.Login.{session, full, session-Live}

abbrev session_sealed : Bytes
session_sealed =
    1 ∷ 65 ∷ 16 ∷ 0 ∷ 0 ∷ 0 ∷ 0 ∷ 0 ∷ 0 ∷ 0 ∷ 0 ∷ 0 ∷ 0 ∷ 0 ∷ 0 ∷ 0 ∷ 0 ∷ 0 ∷ 99 ∷ 4 ∷ 97 ∷ 99 ∷ 109
    ∷ 101 ∷ 16 ∷ 0 ∷ 0 ∷ 0 ∷ 0 ∷ 0 ∷ 0 ∷ 0 ∷ 0 ∷ 0 ∷ 0 ∷ 0 ∷ 0 ∷ 0 ∷ 0 ∷ 0 ∷ 7 ∷ 2 ∷ 3 ∷ 112 ∷ 119
    ∷ 100 ∷ 4 ∷ 116 ∷ 111 ∷ 116 ∷ 112 ∷ 0 ∷ 8 ∷ 23 ∷ 151 ∷ 156 ∷ 255 ∷ 96 ∷ 47 ∷ 242 ∷ 0 ∷ 8 ∷ 23
    ∷ 151 ∷ 157 ∷ 0 ∷ 78 ∷ 155 ∷ 26 ∷ 0 ∷ 8 ∷ 0 ∷ 0 ∷ 0 ∷ 0 ∷ 0 ∷ 0 ∷ 0 ∷ 3 ∷ 1 ∷ 0 ∷ 1 ∷ 1 ∷ 0 ∷ 1
    ∷ 1 ∷ 0 ∷ 8 ∷ 23 ∷ 151 ∷ 157 ∷ 0 ∷ 138 ∷ 53 ∷ 228 ∷ 0 ∷ 8 ∷ 23 ∷ 151 ∷ 157 ∷ 0 ∷ 138 ∷ 53 ∷ 228
    ∷ 0 ∷ []

abbrev pending_sealed : Bytes
pending_sealed =
    1 ∷ 80 ∷ 4 ∷ 97 ∷ 99 ∷ 109 ∷ 101 ∷ 16 ∷ 0 ∷ 0 ∷ 0 ∷ 0 ∷ 0 ∷ 0 ∷ 0 ∷ 0 ∷ 0 ∷ 0 ∷ 0 ∷ 0 ∷ 0 ∷ 0
    ∷ 0 ∷ 7 ∷ 8 ∷ 0 ∷ 0 ∷ 0 ∷ 0 ∷ 0 ∷ 0 ∷ 0 ∷ 3 ∷ 2 ∷ 1 ∷ 3 ∷ 112 ∷ 119 ∷ 100 ∷ 0 ∷ 1 ∷ 1 ∷ 0 ∷ 8
    ∷ 23 ∷ 151 ∷ 156 ∷ 255 ∷ 96 ∷ 47 ∷ 242 ∷ 0 ∷ 1 ∷ 4 ∷ 116 ∷ 111 ∷ 116 ∷ 112 ∷ 0 ∷ 1 ∷ 0 ∷ 0 ∷ 8
    ∷ 23 ∷ 151 ∷ 157 ∷ 0 ∷ 78 ∷ 155 ∷ 26 ∷ 0 ∷ 1 ∷ 1 ∷ 0 ∷ 1 ∷ 1 ∷ 0 ∷ 16 ∷ 0 ∷ 0 ∷ 0 ∷ 0 ∷ 0 ∷ 0
    ∷ 0 ∷ 0 ∷ 0 ∷ 0 ∷ 0 ∷ 0 ∷ 0 ∷ 0 ∷ 0 ∷ 0 ∷ 0 ∷ 8 ∷ 23 ∷ 151 ∷ 157 ∷ 207 ∷ 194 ∷ 88 ∷ 40 ∷ 0 ∷ []

seal-session : seal session ≡ ok session_sealed
unfolding seal finish check_attrs has_role role factor_table role_discrete put_attrs uvarint_rounds
    append_uvarint be_bytes put_bytes put_u64 put_bool put_uuid to_unix_nano put_time put_subject
    put_codes put_factors code put_each_use put_uses
seal-session = refl

seal_pending-full : seal_pending full ≡ ok pending_sealed
unfolding seal_pending finish check_pending check_verified_shape count_roles tally check_combination
    valid contains factor_discrete role factor_table put_pending put_verified put_each_verified
    uvarint_rounds append_uvarint be_bytes put_bytes put_u64 put_bool put_uuid to_unix_nano put_time
    put_subject put_codes put_factors code
seal_pending-full = refl

session-IsSealable : IsSealable session
unfolding valid factor_table tenant_ok parse_tenant_id code_le leb_bytes code
session-IsSealable = record {
  versioned = refl;
  lineage = ground arith;
  user = ground arith;
  tenant = refl;
  epoch = ground arith;
  known = (refl, (refl, tt));
  ordered = (refl, tt);
  uses = tt;
}

unseal-seal_example : unseal session_sealed ≡ ok session
unseal-seal_example = unseal-seal session session_sealed session-IsSealable seal-session

Live-unseal-seal_example : unseal session_sealed ≡ ok session
unfolding tenant_ok parse_tenant_id
Live-unseal-seal_example =
    Live-unseal-seal session session_sealed session-Live (ground arith) (ground arith)
      (ground arith) refl seal-session

unseal_other_tag_example : unseal pending_sealed ≡ err malformed
unseal_other_tag_example = unseal_other_tag full pending_sealed seal_pending-full

-- The decoder run on the sealed Pending.
unseal_pending-full : unseal_pending pending_sealed ≡ ok full
unfolding unseal_pending new_decoder seal_pending finish check_pending check_verified_shape
    count_roles tally check_combination valid contains factor_discrete role factor_table put_pending
    put_verified put_each_verified uvarint_rounds append_uvarint be_bytes put_bytes put_u64 put_bool
    put_uuid to_unix_nano put_time put_subject put_codes put_factors code get_pending get_entries
    get_each_verified get_verified get_subject get_factors get_factors_from get_factor known
    breaks_order factor_by_code find_code code_le leb_bytes get_time get_transport get_bool get_uuid
    get_u64 get_fixed get_bytes get_count uvarint uvarint_from be_value from_unix_nano tenant_ok
    parse_tenant_id bytes_discrete
unseal_pending-full = refl
