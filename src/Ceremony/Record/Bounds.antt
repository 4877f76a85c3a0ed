-- ===== src/Ceremony/Record/Bounds.antt =====
-- What a new record carries over from its specification and its Pending.
use egauth.Base.{
  ◌+◌, ◌≤◌, ◌<◌, ◌≡◌, true, false, Bytes, Option, some, ok, arith, refl, not, ◌||◌, eqb, leb,
  bytes_discrete,
}
use egauth.Ceremony.Kind.{
  kind_scope, kind_valid, admits_session, subject_scoped, no_scope, scope_discrete,
}
use egauth.Ceremony.Kind.Limits.{ttl, kind_expires_at}
use egauth.Ceremony.Kind.Bounds.{kind_expires_at-bounds}
use egauth.Ceremony.Record.{
  CeremonySpec, PendingBinding, Record, CeremonyRow, new_ceremony_record, restore_ceremony,
  check_ceremony_row, binding_fits, validate_record, scoped_to, Scope,
}

abbrev made : CeremonySpec → PendingBinding → CeremonyRow
made s b = record {
  tenant = b.tenant;
  kind = s.kind;
  handle_hash = s.handle_hash;
  scope_hash = s.scope.hash;
  pending = s.pending;
  payload = s.payload;
  attempts = 0;
  expires = kind_expires_at s.kind b.expires s.now;
  created_at = s.now;
}

new_ceremony_record-eq-ok :
    (s : CeremonySpec) (opener : Bytes → Option PendingBinding) (b : PendingBinding) (r : Record)
    → opener s.pending ≡ some b
    → new_ceremony_record s opener ≡ ok r
    → (r ≡ record { pending = s.pending; fields = made s b })
      × (check_ceremony_row (made s b) ≡ ok tt)
      × (s.scope.class ≡ kind_scope s.kind)
      × (binding_fits s.scope b ≡ true)
      × (kind_valid s.kind ≡ true)
      × (s.now < kind_expires_at s.kind b.expires s.now)
unfolding new_ceremony_record restore_ceremony
new_ceremony_record-eq-ok s opener b r o e =
    (ground arith, ground arith, ground arith, ground arith, ground arith, ground arith)

-- A row that passes the checks has a scope class.
check-class :
    (r : CeremonyRow)
    → check_ceremony_row r ≡ ok tt
    → eqb scope_discrete (kind_scope r.kind) no_scope ≡ false
unfolding check_ceremony_row
check-class r e = ground arith

binding_fits-tenant :
    (s : Scope) (b : PendingBinding)
    → binding_fits s b ≡ true
    → (not (eqb scope_discrete s.class subject_scoped) || eqb bytes_discrete s.tenant b.tenant)
      ≡ true
binding_fits-tenant s b e = ground arith

-- A record of NewRecord is of the tenant of its Pending, is scoped to the scope of its specification,
-- carries no attempt and passes Validate; it ends after its creation, no later than the lifetime of its
-- kind after it and, if its kind admits a session, no later than its Pending.
pub new_ceremony_record-bounds :
    (s : CeremonySpec) (opener : Bytes → Option PendingBinding) (b : PendingBinding) (r : Record)
    → opener s.pending ≡ some b
    → new_ceremony_record s opener ≡ ok r
    → (r.fields.tenant ≡ b.tenant)
      × (scoped_to r s.scope ≡ true)
      × (r.fields.attempts ≡ 0)
      × (validate_record r ≡ ok tt)
      × (s.now < r.fields.expires)
      × (r.fields.expires ≤ s.now + ttl s.kind)
      × ((not (admits_session s.kind) || leb r.fields.expires b.expires) ≡ true)
unfolding validate_record scoped_to
new_ceremony_record-bounds s opener b r o e =
    let (built, good, class, fits, known, later) = new_ceremony_record-eq-ok s opener b r o e in
    let (short, capped) = kind_expires_at-bounds s.kind b.expires s.now known in
    rw built (
      refl,
      ground (arith, check-class (made s b) good, binding_fits-tenant s.scope b fits),
      refl,
      ground arith,
      later,
      short,
      ground arith,
    )
