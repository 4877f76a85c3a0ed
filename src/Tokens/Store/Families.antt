-- ===== src/Tokens/Store/Families.antt =====
-- store/tokens/memory/store.go: the operations on whole families, subjects and tenants, and reaping.
use egauth.Base.{
  ℕ, ◌+◌, ◌-◌, Bool, true, false, not, ◌&&◌, ◌||◌, List, [], ◌∷◌, Bytes, length, is_empty,
  if◌then◌else◌, any, eqb, ltb, leb, ◌==◌, none, some, Result, ok, err, ◌>>=◌, ◌>>◌, refuse_if,
  bytes_discrete, ℕ_discrete,
}
use egauth.Base.Maps.{Map, get, put, delete, keys}
use egauth.Core.Policy.{Subject, uuid_nil, zero_time}
use egauth.Core.Pending.{subject_discrete}
use egauth.Sessions.Store.{micro, is_some}
use egauth.Tokens.ApiKey.{ApiKey}
use egauth.Tokens.Record.{
  TokenError, token_cancelled, bad_record, token_conflict, token_not_found, RefreshRow,
}
use egauth.Tokens.Store.{
  FamilyKey, family_discrete, Token, FamilyRevocation, KeyRef, ref_discrete, TokenStore, key_of,
  token_at, hashes, rows_of, latest_end, revoke_key, insert,
}

-- `FamilyState` of store/tokens/store.go.
pub record FamilyState : Type 0 where
  pub subject : Subject
  pub lineage : ℕ
  pub revoked : Bool
  pub expires_at : ℕ

abbrev pub family_live : FamilyState → ℕ → Bool
family_live f now = not f.revoked && ltb now f.expires_at

-- `state`, of the first row and the rows; the code calls it on a family that has rows.
unfoldable pub state_of : Token → List Token → FamilyState
state_of r rs = record {
  subject = r.row.subject;
  lineage = r.row.lineage;
  revoked = any (λ q. q.revoked) rs;
  expires_at = latest_end rs;
}

unfoldable pub family_state : Bool → Bytes → ℕ → TokenStore → Result TokenError FamilyState
family_state ctx t family s = do
  refuse_if ctx token_cancelled
  elim (rows_of (hashes (record { tenant = t; family = family }) s) s.tokens) [
    | [] ↦ err token_not_found
    | r ∷ rs ↦ ok (state_of r (r ∷ rs))
  ]

abbrev pub same_holder : FamilyState → RefreshRow → Bool
same_holder f r = eqb subject_discrete r.subject f.subject && r.lineage == f.lineage

-- `Reissue`: `family` is the request's, and `next` its new record.
unfoldable pub reissue : Bool → ℕ → ℕ → RefreshRow → TokenStore → Result TokenError TokenStore
reissue ctx clk family next s = do
  refuse_if ctx token_cancelled
  refuse_if (is_empty next.token_hash) bad_record
  let fk : FamilyKey = record { tenant = next.subject.tenant; family = family }
  let rows = rows_of (hashes fk s) s.tokens
  refuse_if (is_empty rows || next.family == family) token_conflict
  refuse_if (is_some (get family_discrete (key_of next) s.families)) token_conflict
  refuse_if (is_some (token_at next.token_hash s)) token_conflict
  elim rows [
    | [] ↦ err token_conflict
    | r ∷ rs ↦ do
      let st = state_of r (r ∷ rs)
      refuse_if (st.revoked || not (family_live st (micro clk)) || not (same_holder st next))
          token_conflict
      refuse_if (any (λ q. not (same_holder st q.row)) (r ∷ rs)) token_conflict
      t ← insert next s
      ok (revoke_key fk (micro clk) t)
  ]

unfoldable pub remove_hash : Bytes → List Bytes → List Bytes
remove_hash h [] = []
remove_hash h (k ∷ ks) = if eqb bytes_discrete k h then remove_hash h ks else k ∷ remove_hash h ks

-- `dropToken`; a family with no token left is deleted.
unfoldable pub drop_token : Bytes → TokenStore → TokenStore
drop_token h s = elim (token_at h s) [
  | none ↦ s
  | some r ↦
      let left = remove_hash h (hashes (key_of r.row) s) in
      record s {
        tokens = delete bytes_discrete h s.tokens;
        families =
            if is_empty left
            then delete family_discrete (key_of r.row) s.families
            else put family_discrete (key_of r.row) left s.families;
      }
]

unfoldable pub drop_each : List Bytes → TokenStore → TokenStore
drop_each [] s = s
drop_each (h ∷ hs) s = drop_each hs (drop_token h s)

unfoldable pub drop_family : FamilyKey → TokenStore → TokenStore
drop_family fk s = drop_each (hashes fk s) s

-- The loop of `ReapExpired` over the digests; the count is how many tokens it dropped.
unfoldable pub reap_tokens : List Bytes → ℕ → TokenStore → TokenStore × ℕ
reap_tokens [] now s = (s, 0)
reap_tokens (h ∷ hs) now s =
    let gone : Bool = elim (token_at h s) [
      | none ↦ false
      | some r ↦ leb r.row.idle_expires_at now || leb r.row.family_expires_at now
    ] in
    let (t, n) = reap_tokens hs now (if gone then drop_token h s else s) in
    (t, if gone then n + 1 else n)

abbrev pub drop_key : KeyRef → ApiKey → TokenStore → TokenStore
drop_key ref k s = record s {
  keys = delete ref_discrete ref s.keys;
  key_ids = delete ℕ_discrete k.id s.key_ids;
}

-- A loop over the API keys that drops those which pass a test, and their number.
unfoldable pub drop_keys_where :
    (KeyRef → ApiKey → Bool) → Map KeyRef ApiKey → TokenStore → TokenStore × ℕ
drop_keys_where p [] s = (s, 0)
drop_keys_where p ((ref, k) ∷ m) s =
    let (t, n) = drop_keys_where p m (if p ref k then drop_key ref k s else s) in
    (t, if p ref k then n + 1 else n)

unfoldable pub kept_revocations : ℕ → List FamilyRevocation → List FamilyRevocation
kept_revocations now [] = []
kept_revocations now (r ∷ rs) =
    if ltb now r.expires then r ∷ kept_revocations now rs else kept_revocations now rs

unfoldable pub reap_expired_tokens : Bool → ℕ → TokenStore → Result TokenError (TokenStore × ℕ)
reap_expired_tokens ctx clk s = do
  refuse_if ctx token_cancelled
  let (t, n) = reap_tokens (keys s.tokens) (micro clk) s
  let (u, m) =
      drop_keys_where (λ ref k. not (k.expires_at == zero_time) && leb k.expires_at (micro clk))
        t.keys t
  let kept = kept_revocations (micro clk) u.feed
  ok (record u { feed = kept }, n + m + (length u.feed - length kept))

-- Revokes each family and, for `true`, drops it.
unfoldable pub end_families : Bool → List FamilyKey → ℕ → TokenStore → TokenStore
end_families dropped [] now s = s
end_families dropped (fk ∷ fks) now s =
    let t = revoke_key fk now s in
    end_families dropped fks now (if dropped then drop_family fk t else t)

unfoldable pub families_of_tenant : Bytes → List FamilyKey → List FamilyKey
families_of_tenant t [] = []
families_of_tenant t (fk ∷ fks) =
    if eqb bytes_discrete fk.tenant t
    then fk ∷ families_of_tenant t fks
    else families_of_tenant t fks

unfoldable pub erase_tenant_tokens : Bool → ℕ → Bytes → TokenStore → Result TokenError TokenStore
erase_tenant_tokens ctx clk t s = do
  refuse_if ctx token_cancelled
  let ended = end_families true (families_of_tenant t (keys s.families)) (micro clk) s
  ok ((drop_keys_where (λ ref k. eqb bytes_discrete ref.tenant t) ended.keys ended).0)

unfoldable pub insert_family : FamilyKey → List FamilyKey → List FamilyKey
insert_family f [] = f ∷ []
insert_family f (g ∷ gs) = if leb f.family g.family then f ∷ g ∷ gs else g ∷ insert_family f gs

-- The row of the first token of a family, if it is of the subject and not kept.
abbrev pub is_subject_family : Subject → (RefreshRow → Bool) → TokenStore → FamilyKey → Bool
is_subject_family sub keep s fk = elim (rows_of (hashes fk s) s.tokens) [
  | [] ↦ false
  | r ∷ rs ↦ eqb subject_discrete r.row.subject sub && not (keep r.row)
]

-- `subjectFamilies`, in the order of the family ids.
unfoldable pub subject_families :
    Subject → (RefreshRow → Bool) → TokenStore → List FamilyKey → List FamilyKey
subject_families sub keep s [] = []
subject_families sub keep s (fk ∷ fks) =
    let rest = subject_families sub keep s fks in
    if eqb bytes_discrete fk.tenant sub.tenant && is_subject_family sub keep s fk
    then insert_family fk rest
    else rest

abbrev pub keeps_lineage : ℕ → RefreshRow → Bool
keeps_lineage except r = not (except == uuid_nil) && r.lineage == except

unfoldable pub revoke_subject_tokens :
    Bool → ℕ → Subject → ℕ → TokenStore → Result TokenError TokenStore
revoke_subject_tokens ctx clk sub except s = do
  refuse_if ctx token_cancelled
  ok (
      end_families false (subject_families sub (keeps_lineage except) s (keys s.families))
        (micro clk) s)

unfoldable pub delete_subject_tokens :
    Bool → ℕ → Subject → TokenStore → Result TokenError TokenStore
delete_subject_tokens ctx clk sub s = do
  refuse_if ctx token_cancelled
  let ended =
      end_families true (subject_families sub (λ r. false) s (keys s.families)) (micro clk) s
  ok ((drop_keys_where (λ ref k. eqb subject_discrete k.owner sub) ended.keys ended).0)
