-- ===== src/Ceremony/Store/Run.antt =====
-- The writes of a ceremony store as a step relation, and the invariant over any run of them.
use egauth.Base.{ℕ, ◌≡◌, Bool, List, Bytes, Result, ok}
use egauth.Ceremony.Kind.{Kind}
use egauth.Ceremony.Record.{CeremonyError, Record}
use egauth.Ceremony.Store.{CeremonyStore, new_ceremony_store}
use egauth.Ceremony.Store.Calls.{put_record, consume, record_failure, mark_consumed}
use egauth.Ceremony.Store.Sweeps.{
  erase_tenant_ceremonies, reap_expired_ceremonies, delete_for_scope,
}
use egauth.Ceremony.Store.Single.{consume-eq-ok}
use egauth.Ceremony.Store.Indexed.{IsIndexed, new_ceremony_store-IsIndexed, remove_entry-IsIndexed}
use egauth.Ceremony.Store.Writes.{
  put-IsIndexed, failure-IsIndexed, mark-IsIndexed, erase-IsIndexed, reap-IsIndexed,
  delete-IsIndexed,
}

-- The successful writes.
pub data Change : CeremonyStore → CeremonyStore → Type 0 where
  puts :
      {s s' : CeremonyStore} (ctx : Bool) (now n : ℕ) (r : Record)
      → put_record ctx now r s ≡ ok (s', n)
      → Change s s'
  consumes :
      {s s' : CeremonyStore} (ctx : Bool) (now : ℕ) (t : Bytes) (k : Kind) (handle : Bytes)
      (r : Result CeremonyError Record)
      → consume ctx now t k handle s ≡ ok (s', r)
      → Change s s'
  fails :
      {s s' : CeremonyStore} (ctx : Bool) (now n : ℕ) (t : Bytes) (k : Kind) (handle : Bytes)
      → record_failure ctx now t k handle s ≡ ok (s', n)
      → Change s s'
  marks :
      {s s' : CeremonyStore} (ctx first : Bool) (now until : ℕ) (t : Bytes) (k : Kind)
      (handle : Bytes)
      → mark_consumed ctx now t k handle until s ≡ ok (s', first)
      → Change s s'
  deletes :
      {s s' : CeremonyStore} (ctx : Bool) (n : ℕ) (t scope : Bytes) (kinds : List Kind)
      → delete_for_scope ctx t scope kinds s ≡ ok (s', n)
      → Change s s'
  erases :
      {s s' : CeremonyStore} (ctx : Bool) (t : Bytes)
      → erase_tenant_ceremonies ctx t s ≡ ok s'
      → Change s s'
  reaps :
      {s s' : CeremonyStore} (ctx : Bool) (now n : ℕ)
      → reap_expired_ceremonies ctx now s ≡ ok (s', n)
      → Change s s'

-- The stores that a new store reaches.
pub data Reached : CeremonyStore → Type 0 where
  fresh : Reached new_ceremony_store
  changed : {s s' : CeremonyStore} → Reached s → Change s s' → Reached s'

Change-IsIndexed : {s s' : CeremonyStore} → Change s s' → IsIndexed s → IsIndexed s'
Change-IsIndexed {s} {s'} (puts ctx now n r e) w = put-IsIndexed ctx now n r s s' w e
Change-IsIndexed {s} {s'} (consumes ctx now t k handle r e) w =
    let (left, _) = consume-eq-ok ctx now t k handle s s' r e in
    rw left (remove_entry-IsIndexed _ s w)
Change-IsIndexed {s} {s'} (fails ctx now n t k handle e) w =
    failure-IsIndexed ctx now n t k handle s s' w e
Change-IsIndexed {s} {s'} (marks ctx first now until t k handle e) w =
    mark-IsIndexed ctx first now until t k handle s s' w e
Change-IsIndexed {s} {s'} (deletes ctx n t scope kinds e) w =
    delete-IsIndexed ctx n t scope kinds s s' w e
Change-IsIndexed {s} {s'} (erases ctx t e) w = erase-IsIndexed ctx t s s' w e
Change-IsIndexed {s} {s'} (reaps ctx now n e) w = reap-IsIndexed ctx now n s s' w e

-- In every ceremony store that a new one reaches by successful puts, consumptions, failures, marks,
-- deletions, erasures and reaps, each record stands under its own tenant, kind and handle, no key stands
-- twice, a bucket lists the keys of its tenant and kind, and the count of a scope is the number of its
-- records.
pub Reached-IsIndexed : (s : CeremonyStore) → Reached s → IsIndexed s
Reached-IsIndexed s fresh = new_ceremony_store-IsIndexed
Reached-IsIndexed s (changed r step) = Change-IsIndexed step (Reached-IsIndexed _ r)
