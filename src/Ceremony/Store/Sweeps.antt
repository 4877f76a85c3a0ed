-- ===== src/Ceremony/Store/Sweeps.antt =====
-- store/ceremony/memory/store.go: the operations over every record.
use egauth.Base.{
  ℕ, ◌+◌, Bool, false, not, ◌&&◌, ◌||◌, List, [], ◌∷◌, Bytes, is_empty, if◌then◌else◌, any, eqb,
  leb, none, some, Result, ok, ◌>>◌, refuse_if, bytes_discrete,
}
use egauth.Base.Maps.{Map, delete, keys}
use egauth.Ceremony.Kind.{Kind, kind_discrete}
use egauth.Ceremony.Record.{CeremonyError, ceremony_cancelled}
use egauth.Ceremony.Store.{
  Key, key_discrete, CeremonyEntry, CeremonyStore, entry_at, remove_entry, is_live, in_scope,
}

-- A loop over the records that removes those which pass a test, and their number.
unfoldable pub remove_where :
    (Key → CeremonyEntry → Bool) → List Key → CeremonyStore → CeremonyStore × ℕ
remove_where p [] s = (s, 0)
remove_where p (k ∷ ks) s =
    let hit : Bool = elim (entry_at k s) [ none ↦ false | some e ↦ p k e ] in
    let (t, n) = remove_where p ks (if hit then remove_entry k s else s) in
    (t, if hit then n + 1 else n)

-- A loop over the marks that deletes those which pass a test, and their number.
unfoldable pub unmark_where : (Key → ℕ → Bool) → Map Key ℕ → CeremonyStore → CeremonyStore × ℕ
unmark_where p [] s = (s, 0)
unmark_where p ((k, until) ∷ m) s =
    let (t, n) =
      unmark_where p m
        (if p k until then record s { consumed = delete key_discrete k s.consumed } else s) in
    (t, if p k until then n + 1 else n)

unfoldable pub erase_tenant_ceremonies :
    Bool → Bytes → CeremonyStore → Result CeremonyError CeremonyStore
erase_tenant_ceremonies ctx t s = do
  refuse_if ctx ceremony_cancelled
  let swept = (remove_where (λ k e. eqb bytes_discrete k.tenant t) (keys s.rows) s).0
  ok ((unmark_where (λ k until. eqb bytes_discrete k.tenant t) swept.consumed swept).0)

unfoldable pub reap_expired_ceremonies :
    Bool → ℕ → CeremonyStore → Result CeremonyError (CeremonyStore × ℕ)
reap_expired_ceremonies ctx now s = do
  refuse_if ctx ceremony_cancelled
  let (t, n) = remove_where (λ k e. not (is_live e now)) (keys s.rows) s
  let (u, m) = unmark_where (λ k until. leb until now) t.consumed t
  ok (u, n + m)

unfoldable pub delete_for_scope :
    Bool → Bytes → Bytes → List Kind → CeremonyStore → Result CeremonyError (CeremonyStore × ℕ)
delete_for_scope ctx t scope kinds s = do
  refuse_if ctx ceremony_cancelled
  ok (
      if is_empty scope
      then (s, 0)
      else remove_where
          (λ k e.
            eqb bytes_discrete k.tenant t
            && in_scope scope e
            && (is_empty kinds || any (λ j. eqb kind_discrete j k.kind) kinds))
          (keys s.rows) s)
