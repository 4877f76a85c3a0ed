-- ===== src/Tokens/Store/Run.antt =====
-- The writes of a token store as a step relation, and the invariant over any run of them.
use egauth.Base.{
  ℕ, ◌≡◌, refl, ◌≢◌, Bool, true, false, not, ◌&&◌, ◌||◌, List, [], ◌∷◌, Bytes, eqb, leb, ◌==◌, none,
  ok, arith, Option-cases, Result-cases, List-cases, Bool-cases, inl, inr, bytes_discrete,
}
use egauth.Base.Maps.{Map, keys, get}
use egauth.Core.Policy.{Subject, zero_time}
use egauth.Core.Pending.{subject_discrete}
use egauth.Sessions.Store.{micro}
use egauth.Tokens.ApiKey.{ApiKey}
use egauth.Tokens.Record.{RefreshRow}
use egauth.Tokens.Store.{
  FamilyKey, family_discrete, KeyRef, TokenStore, new_token_store, key_of, token_at, hashes,
  rows_of, revoke_key, insert, create_family, consume_for_rotation, revoke_family,
}
use egauth.Tokens.Store.Families.{
  reissue, reap_tokens, drop_keys_where, reap_expired_tokens, end_families, families_of_tenant,
  erase_tenant_tokens, subject_families, keeps_lineage, revoke_subject_tokens,
  delete_subject_tokens,
}
use egauth.Tokens.Store.Keys.{create_api_key, revoke_api_key}
use egauth.Tokens.Store.Linked.{IsLinked, new_token_store-IsLinked, revoke_key-IsLinked}
use egauth.Tokens.Store.Single.{drop_token-IsLinked, drop_family-IsLinked}
use egauth.Tokens.Store.Kept.{
  same_tokens-IsLinked, insert_fresh-IsLinked, create_family-IsLinked, consume-IsLinked,
}

pub reissue-eq-ok :
    (ctx : Bool) (clk family : ℕ) (next : RefreshRow) (s s' : TokenStore)
    → reissue ctx clk family next s ≡ ok s'
    → (t : TokenStore) × (insert next s ≡ ok t)
      × (get family_discrete (key_of next) s.families ≡ none)
      × (s' ≡ revoke_key (record { tenant = next.subject.tenant; family = family }) (micro clk) t)
      × (next.family ≢ family)
unfolding reissue
reissue-eq-ok ctx clk family next s s' e =
    elim (List-cases
      (rows_of (hashes (record { tenant = next.subject.tenant; family = family }) s) s.tokens)) [
        | inl f ↦ absurd (ground arith)
        | inr (r, rs, f) ↦ elim (Result-cases (insert next s)) [
          | inl (t, g) ↦ (t, g, ground arith, ground arith, ground arith)
          | inr (x, g) ↦ absurd (ground arith)
        ]
      ]

reissue-IsLinked :
    (ctx : Bool) (clk family : ℕ) (next : RefreshRow) (s s' : TokenStore)
    → IsLinked s
    → reissue ctx clk family next s ≡ ok s'
    → IsLinked s'
reissue-IsLinked ctx clk family next s s' w e =
    let (t, made, fresh, built, _) = reissue-eq-ok ctx clk family next s s' e in
    rw built (revoke_key-IsLinked _ (micro clk) t (insert_fresh-IsLinked next s t w fresh made))

end_families-IsLinked :
    (dropped : Bool) (fks : List FamilyKey) (now : ℕ) (s : TokenStore)
    → IsLinked s
    → IsLinked (end_families dropped fks now s)
unfolding end_families
end_families-IsLinked dropped [] now s w = w
end_families-IsLinked true (fk ∷ fks) now s w =
    end_families-IsLinked true fks now _
      (drop_family-IsLinked fk _ (revoke_key-IsLinked fk now s w))
end_families-IsLinked false (fk ∷ fks) now s w =
    end_families-IsLinked false fks now _ (revoke_key-IsLinked fk now s w)

reap_tokens-IsLinked :
    (hs : List Bytes) (now : ℕ) (s : TokenStore) → IsLinked s → IsLinked (reap_tokens hs now s).0
unfolding reap_tokens
reap_tokens-IsLinked [] now s w = w
reap_tokens-IsLinked (h ∷ hs) now s w = elim (Option-cases (token_at h s)) [
  | inl e ↦ rw e (reap_tokens-IsLinked hs now s w)
  | inr (r, e) ↦
      rw e (elim (Bool-cases (leb r.row.idle_expires_at now || leb r.row.family_expires_at now)) [
        | inl l ↦ rw l (reap_tokens-IsLinked hs now _ (drop_token-IsLinked h s w))
        | inr l ↦ rw l (reap_tokens-IsLinked hs now s w)
      ])
]

-- Dropping API keys touches no token.
pub drop_keys_where-tokens :
    (p : KeyRef → ApiKey → Bool) (m : Map KeyRef ApiKey) (s : TokenStore)
    → ((drop_keys_where p m s).0.tokens ≡ s.tokens)
      × ((drop_keys_where p m s).0.families ≡ s.families)
unfolding drop_keys_where
drop_keys_where-tokens p [] s = (refl, refl)
drop_keys_where-tokens p ((ref, k) ∷ m) s = elim (Bool-cases (p ref k)) [
  | inl e ↦ rw e (drop_keys_where-tokens p m _)
  | inr e ↦ rw e (drop_keys_where-tokens p m s)
]

drop_keys_where-IsLinked :
    (p : KeyRef → ApiKey → Bool) (m : Map KeyRef ApiKey) (s : TokenStore)
    → IsLinked s
    → IsLinked (drop_keys_where p m s).0
drop_keys_where-IsLinked p m s w =
    let (tokens, families) = drop_keys_where-tokens p m s in
    same_tokens-IsLinked s (drop_keys_where p m s).0 w tokens families

reap-IsLinked :
    (ctx : Bool) (clk : ℕ) (s s' : TokenStore) (n : ℕ)
    → IsLinked s
    → reap_expired_tokens ctx clk s ≡ ok (s', n)
    → IsLinked s'
unfolding reap_expired_tokens
reap-IsLinked ctx clk s s' n w e =
    let t = (reap_tokens (keys s.tokens) (micro clk) s).0 in
    same_tokens-IsLinked
      (drop_keys_where (λ ref k. not (k.expires_at == zero_time) && leb k.expires_at (micro clk))
        t.keys t).0
      s'
      (drop_keys_where-IsLinked _ t.keys t (reap_tokens-IsLinked (keys s.tokens) (micro clk) s w))
      (ground arith) (ground arith)

-- The writes, whatever they answer.
pub data Write : TokenStore → TokenStore → Type 0 where
  creates :
      {s s' : TokenStore} (ctx : Bool) (r : RefreshRow) → create_family ctx r s ≡ ok s' → Write s s'
  consumes :
      {s s' : TokenStore} (ctx : Bool) (clk : ℕ) (next : RefreshRow) (presented : Bytes)
      → s' ≡ (consume_for_rotation ctx clk next presented s).0
      → Write s s'
  reissues :
      {s s' : TokenStore} (ctx : Bool) (clk family : ℕ) (next : RefreshRow)
      → reissue ctx clk family next s ≡ ok s'
      → Write s s'
  revokes_family :
      {s s' : TokenStore} (ctx : Bool) (clk : ℕ) (t : Bytes) (family : ℕ)
      → revoke_family ctx clk t family s ≡ ok s'
      → Write s s'
  revokes_subject :
      {s s' : TokenStore} (ctx : Bool) (clk : ℕ) (sub : Subject) (except : ℕ)
      → revoke_subject_tokens ctx clk sub except s ≡ ok s'
      → Write s s'
  deletes_subject :
      {s s' : TokenStore} (ctx : Bool) (clk : ℕ) (sub : Subject)
      → delete_subject_tokens ctx clk sub s ≡ ok s'
      → Write s s'
  erases_tenant :
      {s s' : TokenStore} (ctx : Bool) (clk : ℕ) (t : Bytes)
      → erase_tenant_tokens ctx clk t s ≡ ok s'
      → Write s s'
  reaps :
      {s s' : TokenStore} (ctx : Bool) (clk n : ℕ)
      → reap_expired_tokens ctx clk s ≡ ok (s', n)
      → Write s s'
  creates_key :
      {s s' : TokenStore} (ctx : Bool) (k : ApiKey) → create_api_key ctx k s ≡ ok s' → Write s s'
  revokes_key :
      {s s' : TokenStore} (ctx : Bool) (clk : ℕ) (owner : Subject) (id : ℕ)
      → revoke_api_key ctx clk owner id s ≡ ok s'
      → Write s s'

-- The stores that a new store reaches.
pub data History : TokenStore → Type 0 where
  unused : History new_token_store
  written : {s s' : TokenStore} → History s → Write s s' → History s'

create_api_key-tokens :
    (ctx : Bool) (k : ApiKey) (s s' : TokenStore)
    → create_api_key ctx k s ≡ ok s'
    → (s'.tokens ≡ s.tokens) × (s'.families ≡ s.families)
unfolding create_api_key
create_api_key-tokens ctx k s s' e = (ground arith, ground arith)

revoke_api_key-tokens :
    (ctx : Bool) (clk : ℕ) (owner : Subject) (id : ℕ) (s s' : TokenStore)
    → revoke_api_key ctx clk owner id s ≡ ok s'
    → (s'.tokens ≡ s.tokens) × (s'.families ≡ s.families)
unfolding revoke_api_key
revoke_api_key-tokens ctx clk owner id s s' e = (ground arith, ground arith)

Write-IsLinked : {s s' : TokenStore} → Write s s' → IsLinked s → IsLinked s'
unfolding revoke_family revoke_subject_tokens delete_subject_tokens erase_tenant_tokens
Write-IsLinked {s} {s'} (creates ctx r e) w = create_family-IsLinked ctx r s s' w e
Write-IsLinked {s} {s'} (consumes ctx clk next presented e) w =
    rw e (consume-IsLinked ctx clk next presented s w)
Write-IsLinked {s} {s'} (reissues ctx clk family next e) w =
    reissue-IsLinked ctx clk family next s s' w e
Write-IsLinked {s} {s'} (revokes_family ctx clk t family e) w =
    let same : s' ≡ revoke_key (record { tenant = t; family = family }) (micro clk) s =
      ground arith in
    rw same (revoke_key-IsLinked _ (micro clk) s w)
Write-IsLinked {s} {s'} (revokes_subject ctx clk sub except e) w =
    let same : s'
        ≡ end_families false (subject_families sub (keeps_lineage except) s (keys s.families))
            (micro clk) s =
      ground arith in
    rw same (end_families-IsLinked false _ (micro clk) s w)
Write-IsLinked {s} {s'} (deletes_subject ctx clk sub e) w =
    let t =
      end_families true (subject_families sub (λ r. false) s (keys s.families)) (micro clk) s in
    let same : s' ≡ (drop_keys_where (λ ref k. eqb subject_discrete k.owner sub) t.keys t).0 =
      ground arith in
    rw same (drop_keys_where-IsLinked _ t.keys t (end_families-IsLinked true _ (micro clk) s w))
Write-IsLinked {s} {s'} (erases_tenant ctx clk t e) w =
    let u = end_families true (families_of_tenant t (keys s.families)) (micro clk) s in
    let same : s' ≡ (drop_keys_where (λ ref k. eqb bytes_discrete ref.tenant t) u.keys u).0 =
      ground arith in
    rw same (drop_keys_where-IsLinked _ u.keys u (end_families-IsLinked true _ (micro clk) s w))
Write-IsLinked {s} {s'} (reaps ctx clk n e) w = reap-IsLinked ctx clk s s' n w e
Write-IsLinked {s} {s'} (creates_key ctx k e) w =
    let (tokens, families) = create_api_key-tokens ctx k s s' e in
    same_tokens-IsLinked s s' w tokens families
Write-IsLinked {s} {s'} (revokes_key ctx clk owner id e) w =
    let (tokens, families) = revoke_api_key-tokens ctx clk owner id s s' e in
    same_tokens-IsLinked s s' w tokens families

-- In every token store that a new one reaches by its writes, a digest is listed under a family exactly
-- if its token is of that family, each token stands under its own digest and passes the checks of a
-- row, and the tokens of a family are all revoked or none is, and all of one subject and lineage.
pub History-IsLinked : (s : TokenStore) → History s → IsLinked s
History-IsLinked s unused = new_token_store-IsLinked
History-IsLinked s (written r step) = Write-IsLinked step (History-IsLinked _ r)
