-- ===== src/Sessions/Record/Bounds.antt =====
-- What a new session record takes from the attributes, and the bounds of its lifetimes.
use egauth.Base.{◌+◌, ◌≤◌, ◌<◌, ◌≡◌, true, Bytes, Option, some, ok, arith, Option-cases, inl, inr}
use egauth.Core.Attrs.{SessionAttrs}
use egauth.Sessions.Record.{Row, Spec, new_record, restore, check_row, max_clock_skew}

-- A record that NewRecord returns has the subject, lineage and epoch of the attributes and what the
-- sealer wrote, ends at the lineage's admission plus the maximal lifetime, which lies ahead, idles
-- out after now, by the idle duration at most and never past its end, and passes the checks of a row.
pub new_record-bounds :
    (s : Spec) (seal : SessionAttrs → Option Bytes) (r : Row)
    → new_record s seal ≡ ok r
    → (r.subject ≡ s.attrs.subject)
      × (r.lineage ≡ s.attrs.lineage)
      × (r.security_epoch ≡ s.attrs.epoch)
      × (seal s.attrs ≡ some r.sealed)
      × (r.absolute_expires_at ≡ s.attrs.created_at + s.max_lifetime)
      × (s.now < r.absolute_expires_at)
      × (s.now < r.idle_expires_at)
      × (r.idle_expires_at ≤ s.now + s.idle_ttl)
      × (r.idle_expires_at ≤ r.absolute_expires_at)
      × (s.attrs.created_at ≤ s.now + max_clock_skew)
      × (check_row r ≡ true)
unfolding new_record restore
new_record-bounds s seal r e = elim (Option-cases (seal s.attrs)) [
  | inl f ↦ absurd (ground arith)
  | inr (b, f) ↦ (
    ground arith,
    ground arith,
    ground arith,
    ground arith,
    ground arith,
    ground arith,
    ground arith,
    ground arith,
    ground arith,
    ground arith,
    ground arith,
  )
]
