-- ===== src/Tokens/Store/Forgotten.antt =====
-- What deleting a subject and erasing a tenant leave.
use egauth.Base.{
  ℕ, ◌≡◌, refl, ◌≢◌, Bool, true, false, not, ◌&&◌, List, [], ◌∷◌, Bytes, if◌then◌else◌, any, eqb,
  none, some, ok, arith, Option, ◌↔◌, Option-cases, Bool-cases, inl, inr, bytes_discrete, ◌∙◌, ap,
}
use egauth.Base.Maps.{keys, get, get-delete, has_key}
use egauth.Core.Policy.{Subject}
use egauth.Core.Pending.{subject_discrete}
use egauth.Sessions.Store.{micro}
use egauth.Tokens.Store.{
  FamilyKey, family_discrete, Token, TokenStore, key_of, token_at, hashes, rows_of, revoke_key,
}
use egauth.Tokens.Store.Families.{
  drop_token, drop_each, drop_family, end_families, families_of_tenant, erase_tenant_tokens,
  subject_families, delete_subject_tokens,
}
use egauth.Tokens.Store.Linked.{IsLinked, in_family, revoke_key-IsLinked, get-mark_revoked}
use egauth.Tokens.Store.Single.{drop_family-IsLinked}
use egauth.Tokens.Store.Run.{drop_keys_where-tokens}
use egauth.Tokens.Store.Family.{listed_of}
use egauth.Tokens.Store.Holder.{subject_families_iff, has_key-families}

token_at-drop_token :
    (k h : Bytes) (s : TokenStore)
    → token_at h (drop_token k s) ≡ (if eqb bytes_discrete k h then none else token_at h s)
unfolding drop_token
token_at-drop_token k h s = elim (Option-cases (token_at k s)) [
  | inl e ↦
      rw (e, drop_token)
        (elim (bytes_discrete k h) [ yes same ↦ ground arith | no other ↦ ground arith ])
  | inr (r, e) ↦ rw (e, drop_token) (get-delete bytes_discrete k h s.tokens)
]

token_at-drop_each :
    (ks : List Bytes) (h : Bytes) (s : TokenStore)
    → token_at h (drop_each ks s) ≡ (if has_key bytes_discrete ks h then none else token_at h s)
unfolding drop_each
token_at-drop_each [] h s = refl
token_at-drop_each (k ∷ ks) h s =
    ground (arith, token_at-drop_each ks h (drop_token k s), token_at-drop_token k h s)

-- A family that is revoked and dropped takes its tokens, and leaves every other as it was.
token_at-ended :
    (fk : FamilyKey) (now : ℕ) (h : Bytes) (s : TokenStore)
    → IsLinked s
    → token_at h (drop_family fk (revoke_key fk now s))
      ≡ (if in_family fk (token_at h s) then none else token_at h s)
unfolding revoke_key drop_family
token_at-ended fk now h s w =
    elim (Bool-cases (any (λ r. not r.revoked) (rows_of (hashes fk s) s.tokens))) [
      | inl e ↦
          rw (e, revoke_key)
            (token_at-drop_each (hashes fk s) h _
              ∙ ground (arith, get-mark_revoked (hashes fk s) h s.tokens, w.linked fk h))
      | inr e ↦
          rw (e, revoke_key) (token_at-drop_each (hashes fk s) h s ∙ ground (arith, w.linked fk h))
    ]

-- A token, unless its family is one of those deleted.
abbrev outside : List FamilyKey → Option Token → Option Token
outside fks none = none
outside fks (some r) = if has_key family_discrete fks (key_of r.row) then none else some r

eqb_family : (k l : FamilyKey) → eqb family_discrete k l ≡ eqb family_discrete l k
eqb_family k l = ground arith

outside-cons :
    (fk : FamilyKey) (fks : List FamilyKey) (o : Option Token)
    → outside fks (if in_family fk o then none else o) ≡ outside (fk ∷ fks) o
outside-cons fk fks none = refl
outside-cons fk fks (some r) =
    rw (eqb_family (key_of r.row) fk) (elim (Bool-cases (eqb family_discrete fk (key_of r.row))) [
      | inl e ↦ rw e refl
      | inr e ↦ rw e refl
    ])

token_at-end_families :
    (fks : List FamilyKey) (now : ℕ) (h : Bytes) (s : TokenStore)
    → IsLinked s
    → token_at h (end_families true fks now s) ≡ outside fks (token_at h s)
unfolding end_families
token_at-end_families [] now h s w = elim (Option-cases (token_at h s)) [
  | inl e ↦ ground arith
  | inr (r, e) ↦ ground arith
]
token_at-end_families (fk ∷ fks) now h s w =
    let ended = revoke_key fk now s in
    let linked = drop_family-IsLinked fk ended (revoke_key-IsLinked fk now s w) in
    token_at-end_families fks now h (drop_family fk ended) linked
    ∙ (ap (outside fks) (token_at-ended fk now h s w) ∙ outside-cons fk fks (token_at h s))

-- After a successful DeleteForSubject, in a store whose tokens and families agree, the tokens are
-- exactly those that were there before and are not of the subject, each with its row, its revocation
-- and its consumption as they were.
pub delete_subject_forgets :
    (ctx : Bool) (clk : ℕ) (sub : Subject) (h : Bytes) (r : Token) (s s' : TokenStore)
    → IsLinked s
    → delete_subject_tokens ctx clk sub s ≡ ok s'
    → (token_at h s' ≡ some r) ↔ ((token_at h s ≡ some r) × (r.row.subject ≢ sub))
unfolding delete_subject_tokens
delete_subject_forgets ctx clk sub h r s s' w e =
    let fks = subject_families sub (λ q. false) s (keys s.families) in
    let u = end_families true fks (micro clk) s in
    let (same, _) = drop_keys_where-tokens (λ ref k. eqb subject_discrete k.owner sub) u.keys u in
    let tokens : s'.tokens ≡ u.tokens = ground arith in
    let left : token_at h s' ≡ outside fks (token_at h s) =
      ap (get bytes_discrete h) tokens ∙ token_at-end_families fks (micro clk) h s w in
    elim (Option-cases (token_at h s)) [
      | inl f ↦ (λ at. absurd (ground arith), λ (at, _). absurd (ground arith))
      | inr (q, f) ↦
          let owned = subject_families_iff sub h q s w f in
          (λ at. (ground arith, λ owner. absurd (ground arith)), λ (at, other). ground arith)
    ]

has_key-families_of_tenant :
    (t : Bytes) (fks : List FamilyKey) (fk : FamilyKey)
    → has_key family_discrete (families_of_tenant t fks) fk
      ≡ (has_key family_discrete fks fk && eqb bytes_discrete fk.tenant t)
unfolding families_of_tenant
has_key-families_of_tenant t [] fk = refl
has_key-families_of_tenant t (g ∷ gs) fk = elim (family_discrete g fk) [
  | yes same ↦ ground (arith, has_key-families_of_tenant t gs fk)
  | no other ↦ ground (arith, has_key-families_of_tenant t gs fk)
]

-- After a successful EraseTenant, in a store whose tokens and families agree, the tokens are exactly
-- those that were there before and are not of the tenant, as they were.
erase_tenant_forgets :
    (ctx : Bool) (clk : ℕ) (t h : Bytes) (r : Token) (s s' : TokenStore)
    → IsLinked s
    → erase_tenant_tokens ctx clk t s ≡ ok s'
    → (token_at h s' ≡ some r) ↔ ((token_at h s ≡ some r) × (r.row.subject.tenant ≢ t))
unfolding erase_tenant_tokens
erase_tenant_forgets ctx clk t h r s s' w e =
    let fks = families_of_tenant t (keys s.families) in
    let u = end_families true fks (micro clk) s in
    let (same, _) = drop_keys_where-tokens (λ ref k. eqb bytes_discrete ref.tenant t) u.keys u in
    let tokens : s'.tokens ≡ u.tokens = ground arith in
    let left : token_at h s' ≡ outside fks (token_at h s) =
      ap (get bytes_discrete h) tokens ∙ token_at-end_families fks (micro clk) h s w in
    elim (Option-cases (token_at h s)) [
      | inl f ↦ (λ at. absurd (ground arith), λ (at, _). absurd (ground arith))
      | inr (q, f) ↦
          let listed = has_key-families_of_tenant t (keys s.families) (key_of q.row) in
          let there = has_key-families (key_of q.row) h s (listed_of h q s w f) in
          (λ at. (ground arith, λ owner. absurd (ground arith)), λ (at, other). ground arith)
    ]
