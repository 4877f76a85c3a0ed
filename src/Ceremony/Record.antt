-- ===== src/Ceremony/Record.antt =====
-- store/ceremony/record.go and errors.go: scopes, and the stored record of a ceremony.
pub mod Bounds
use egauth.Base.{
  ℕ, ◌+◌, ◌*◌, Bool, true, false, not, ◌&&◌, ◌||◌, Bytes, [], length, is_empty, eqb, ltb, leb, ◌==◌,
  all_zero, Option, none, some, Result, ok, err, ◌>>=◌, ◌>>◌, refuse_if, if◌then◌else◌,
  bytes_discrete,
}
use egauth.Core.Policy.{Subject, subject_is_zero, zero_time}
use egauth.Core.Codec.{be_bytes}
use egauth.Ceremony.Kind.{
  Kind, ScopeClass, no_scope, subject_scoped, identifier_scoped, anonymous, scope_discrete,
  kind_valid, kind_scope, stateless,
}
use egauth.Ceremony.Kind.Limits.{ttl, max_attempts, kind_expires_at}

-- The errors of the package, and those of package store and of the context that its stores return.
pub data CeremonyError : Type 0 where
  ceremony_cancelled invalid_ceremony handle_too_short stateless_kind stored_kind : CeremonyError
  scope_mismatch ceremony_expired ceremony_conflict ceremony_not_found : CeremonyError

abbrev pub handle_hash_len : ℕ
handle_hash_len = 32

abbrev pub max_handle_hash_len : ℕ
max_handle_hash_len = 64

abbrev pub identifier_scope_len : ℕ
identifier_scope_len = 32

abbrev pub max_payload_len : ℕ
max_payload_len = 16 * 1024

abbrev pub uuid_len : ℕ
uuid_len = 16

pub record Scope : Type 0 where
  pub class : ScopeClass
  pub tenant : Bytes
  pub hash : Bytes

abbrev pub zero_scope : Scope
zero_scope = record { class = no_scope; tenant = []; hash = [] }

unfoldable pub subject_scope : Subject → Scope
subject_scope s =
    if subject_is_zero s
    then zero_scope
    else record { class = subject_scoped; tenant = s.tenant; hash = be_bytes uuid_len s.user }

unfoldable pub identifier_scope : Bytes → Result CeremonyError Scope
identifier_scope mac = do
  refuse_if (not (length mac == identifier_scope_len)) scope_mismatch
  ok (record { class = identifier_scoped; tenant = []; hash = mac })

pub record PendingBinding : Type 0 where
  pub tenant : Bytes
  pub subject : Subject
  pub expires : ℕ

pub record CeremonySpec : Type 0 where
  pub kind : Kind
  pub handle_hash : Bytes
  pub scope : Scope
  pub pending : Bytes
  pub payload : Bytes
  pub now : ℕ

-- `Row`; an `int` of attempts below 0, which the checks refuse, is no ℕ.
pub record CeremonyRow : Type 0 where
  pub tenant : Bytes
  pub kind : Kind
  pub handle_hash : Bytes
  pub scope_hash : Bytes
  pub pending : Bytes
  pub payload : Bytes
  pub attempts : ℕ
  pub expires : ℕ
  pub created_at : ℕ

-- `Record`: the unexported fields, and the exported copy of the sealed Pending.
pub record Record : Type 0 where
  pub pending : Bytes
  pub fields : CeremonyRow

abbrev pub binding_fits : Scope → PendingBinding → Bool
binding_fits s b =
    if not (subject_is_zero b.subject) && not (eqb bytes_discrete b.subject.tenant b.tenant)
    then false
    else (if not (eqb scope_discrete s.class subject_scoped)
        then true
        else (if not (eqb bytes_discrete s.tenant b.tenant)
            then false
            else subject_is_zero b.subject
              || eqb bytes_discrete s.hash (be_bytes uuid_len b.subject.user)))

-- The zero UUID is the one whose bytes are all zero.
abbrev pub scope_hash_fits : ScopeClass → Bytes → Bool
scope_hash_fits subject_scoped h = length h == uuid_len && not (all_zero h)
scope_hash_fits identifier_scoped h = length h == identifier_scope_len
scope_hash_fits anonymous h = false
scope_hash_fits no_scope h = false

unfoldable pub check_ceremony_row : CeremonyRow → Result CeremonyError (Unit {0})
check_ceremony_row r = do
  refuse_if (not (kind_valid r.kind)) invalid_ceremony
  refuse_if (stateless r.kind) stateless_kind
  refuse_if (ltb (length r.handle_hash) handle_hash_len) handle_too_short
  refuse_if (not (scope_hash_fits (kind_scope r.kind) r.scope_hash)) scope_mismatch
  refuse_if
      (ltb max_handle_hash_len (length r.handle_hash)
        || is_empty r.pending
        || ltb max_payload_len (length r.payload)
        || leb (max_attempts r.kind) r.attempts
        || (r.created_at == zero_time || not (ltb r.created_at r.expires))
        || ltb (r.created_at + ttl r.kind) r.expires)
      invalid_ceremony

unfoldable pub restore_ceremony : CeremonyRow → Result CeremonyError Record
restore_ceremony r = check_ceremony_row r >> ok (record { pending = r.pending; fields = r })

unfoldable pub validate_record : Record → Result CeremonyError (Unit {0})
validate_record r = do
  refuse_if (not (eqb bytes_discrete r.pending r.fields.pending)) invalid_ceremony
  check_ceremony_row (record r.fields { pending = r.pending })

unfoldable pub scoped_to : Record → Scope → Bool
scoped_to r s =
    if eqb scope_discrete s.class no_scope
      || not (eqb scope_discrete s.class (kind_scope r.fields.kind))
      || not (eqb bytes_discrete s.hash r.fields.scope_hash)
    then false
    else not (eqb scope_discrete s.class subject_scoped)
      || eqb bytes_discrete s.tenant r.fields.tenant

-- `NewRecord`, with the opener that the caller passes; `none` is an opener that is nil or fails.
unfoldable pub new_ceremony_record :
    CeremonySpec → (Bytes → Option PendingBinding) → Result CeremonyError Record
new_ceremony_record s opener = do
  refuse_if (not (kind_valid s.kind)) invalid_ceremony
  refuse_if (stateless s.kind) stateless_kind
  refuse_if (is_empty s.pending) invalid_ceremony
  elim (opener s.pending) [
    | none ↦ err invalid_ceremony
    | some b ↦ do
      refuse_if
          (not (eqb scope_discrete s.scope.class (kind_scope s.kind))
            || not (binding_fits s.scope b))
          scope_mismatch
      refuse_if (s.now == zero_time || b.expires == zero_time) invalid_ceremony
      let end = kind_expires_at s.kind b.expires s.now
      refuse_if (leb b.expires s.now || leb end s.now) ceremony_expired
      restore_ceremony (record {
        tenant = b.tenant;
        kind = s.kind;
        handle_hash = s.handle_hash;
        scope_hash = s.scope.hash;
        pending = s.pending;
        payload = s.payload;
        attempts = 0;
        expires = end;
        created_at = s.now;
      })
  ]
