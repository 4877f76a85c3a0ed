-- ===== src/Tokens/Record/Bounds.antt =====
-- What a new refresh record takes from the attributes, and the bounds of its lifetimes.
use egauth.Base.{◌+◌, ◌≤◌, ◌<◌, ◌≡◌, true, Bytes, Option, some, ok, arith, Option-cases, inl, inr}
use egauth.Core.Attrs.{SessionAttrs}
use egauth.Tokens.Record.{
  RefreshRow, RefreshSpec, new_refresh_record, restore_refresh, check_refresh_row,
}

-- A record that NewRefreshRecord returns has the subject, lineage and epoch of the attributes and what
-- the sealer wrote, its family ends at the lineage's admission plus the maximal lifetime, which lies
-- ahead, it idles out after now, by the idle duration at most and never past its family, and it
-- passes the checks of a row.
pub new_refresh_record-bounds :
    (s : RefreshSpec) (seal : SessionAttrs → Option Bytes) (r : RefreshRow)
    → new_refresh_record s seal ≡ ok r
    → (r.subject ≡ s.attrs.subject)
      × (r.lineage ≡ s.attrs.lineage)
      × (r.security_epoch ≡ s.attrs.epoch)
      × (seal s.attrs ≡ some r.sealed)
      × (r.family_expires_at ≡ s.attrs.created_at + s.max_lifetime)
      × (s.now < r.family_expires_at)
      × (s.now < r.idle_expires_at)
      × (r.idle_expires_at ≤ s.now + s.idle_ttl)
      × (r.idle_expires_at ≤ r.family_expires_at)
      × (check_refresh_row r ≡ true)
unfolding new_refresh_record restore_refresh
new_refresh_record-bounds s seal r e = elim (Option-cases (seal s.attrs)) [
  | inl f ↦ absurd (ground arith)
  | inr (b, f) ↦ (
    ground arith,
    ground arith,
    ground arith,
    ground arith,
    ground arith,
    ground arith,
    ground arith,
    ground arith,
    ground arith,
    ground arith,
  )
]
