-- ===== src/Tokens/Store/Holder.antt =====
-- What the operations on a whole subject or tenant leave.
use mathlib.Core.Path.{subst}
use egauth.Base.{
  ℕ, ◌≡◌, ◌≢◌, refl, Bool, true, false, not, ◌&&◌, ◌||◌, List, [], ◌∷◌, Bytes, any, eqb, some, ok,
  is_ok, arith, Option-cases, List-cases, Bool-cases, inl, inr, bytes_discrete, sym, ◌∙◌,
}
use egauth.Base.Maps.{get, keys, has_key, has_key-keys}
use egauth.Core.Policy.{Subject}
use egauth.Core.Pending.{subject_discrete}
use egauth.Sessions.Store.{micro}
use egauth.Tokens.Record.{RefreshRow}
use egauth.Tokens.Store.{
  FamilyKey, family_discrete, Token, TokenStore, key_of, token_at, hashes, rows_of, revoke_key,
  get_token, consume_for_rotation,
}
use egauth.Tokens.Store.Families.{
  end_families, insert_family, is_subject_family, subject_families, keeps_lineage,
  revoke_subject_tokens,
}
use egauth.Tokens.Store.Linked.{IsLinked}
use egauth.Tokens.Store.Reuse.{
  is_dead, is_dead-mark_revoked, revoke_key_dead, dead-get_token, dead-consume,
}
use egauth.Tokens.Store.Family.{first-rows_of, any-rows_of-true, listed_of, in_family-eq}

revoke_key-keeps_dead :
    (fk : FamilyKey) (now : ℕ) (h : Bytes) (s : TokenStore)
    → is_dead (token_at h s) ≡ true
    → is_dead (token_at h (revoke_key fk now s)) ≡ true
unfolding revoke_key
revoke_key-keeps_dead fk now h s d =
    elim (Bool-cases (any (λ r. not r.revoked) (rows_of (hashes fk s) s.tokens))) [
      | inl e ↦ rw (e, revoke_key) (is_dead-mark_revoked (hashes fk s) h s.tokens d)
      | inr e ↦ rw (e, revoke_key) d
    ]

pub families-revoke_key :
    (fk : FamilyKey) (now : ℕ) (s : TokenStore) → (revoke_key fk now s).families ≡ s.families
unfolding revoke_key
families-revoke_key fk now s =
    elim (Bool-cases (any (λ r. not r.revoked) (rows_of (hashes fk s) s.tokens))) [
      | inl e ↦ rw (e, revoke_key) refl
      | inr e ↦ rw (e, revoke_key) refl
    ]

end_families-keeps_dead :
    (fks : List FamilyKey) (now : ℕ) (h : Bytes) (s : TokenStore)
    → is_dead (token_at h s) ≡ true
    → is_dead (token_at h (end_families false fks now s)) ≡ true
unfolding end_families
end_families-keeps_dead [] now h s d = d
end_families-keeps_dead (fk ∷ fks) now h s d =
    end_families-keeps_dead fks now h _ (revoke_key-keeps_dead fk now h s d)

-- Each token of the families revoked is dead.
end_families_dead :
    (fks : List FamilyKey) (now : ℕ) (fk : FamilyKey) (h : Bytes) (s : TokenStore)
    → has_key family_discrete fks fk ≡ true
    → has_key bytes_discrete (hashes fk s) h ≡ true
    → is_dead (token_at h (end_families false fks now s)) ≡ true
unfolding end_families
end_families_dead [] now fk h s i j = absurd (ground arith)
end_families_dead (g ∷ fks) now fk h s i j = elim (family_discrete g fk) [
  | yes same ↦ end_families-keeps_dead fks now h _ (
      revoke_key_dead g now h s
        (subst (λ x. has_key bytes_discrete (hashes x s) h ≡ true) (sym same) j))
  | no other ↦ end_families_dead fks now fk h _ (ground arith) (rw (families-revoke_key g now s) j)
]

has_key-insert_family :
    (f fk : FamilyKey) (fks : List FamilyKey)
    → has_key family_discrete (insert_family f fks) fk
      ≡ (eqb family_discrete f fk || has_key family_discrete fks fk)
unfolding insert_family
has_key-insert_family f fk [] = refl
has_key-insert_family f fk (g ∷ gs) = ground (arith, has_key-insert_family f fk gs)

pub has_key-subject_families :
    (sub : Subject) (keep : RefreshRow → Bool) (s : TokenStore) (fks : List FamilyKey)
    (fk : FamilyKey)
    → has_key family_discrete (subject_families sub keep s fks) fk ≡ (
        has_key family_discrete fks fk
        && (eqb bytes_discrete fk.tenant sub.tenant && is_subject_family sub keep s fk))
unfolding subject_families
has_key-subject_families sub keep s [] fk = refl
has_key-subject_families sub keep s (g ∷ gs) fk = elim (family_discrete g fk) [
  | yes same ↦ ground (
    arith,
    has_key-subject_families sub keep s gs fk,
    has_key-insert_family g fk (subject_families sub keep s gs),
  )
  | no other ↦ ground (
    arith,
    has_key-subject_families sub keep s gs fk,
    has_key-insert_family g fk (subject_families sub keep s gs),
  )
]

pub has_key-families :
    (fk : FamilyKey) (h : Bytes) (s : TokenStore)
    → has_key bytes_discrete (hashes fk s) h ≡ true
    → has_key family_discrete (keys s.families) fk ≡ true
has_key-families fk h s i = elim (Option-cases (get family_discrete fk s.families)) [
  | inl e ↦ absurd (ground arith)
  | inr (hs, e) ↦ has_key-keys family_discrete s.families fk hs e
]

-- A family is one of the subject's if one of its tokens is.
is_subject_family-of :
    (sub : Subject) (keep : RefreshRow → Bool) (h : Bytes) (r : Token) (s : TokenStore)
    → IsLinked s
    → ((q : RefreshRow) → q.lineage ≡ r.row.lineage → keep q ≡ keep r.row)
    → token_at h s ≡ some r
    → r.row.subject ≡ sub
    → keep r.row ≡ false
    → is_subject_family sub keep s (key_of r.row) ≡ true
is_subject_family-of sub keep h r s w alike at e k =
    let fk = key_of r.row in
    elim (List-cases (rows_of (hashes fk s) s.tokens)) [
      | inl g ↦ absurd (
          ground (
            arith,
            any-rows_of-true (λ x. true) (hashes fk s) h r s.tokens (listed_of h r s w at) at,
          ))
      | inr (q, qs, g) ↦
          let (l, i, at_l) = first-rows_of (hashes fk s) s.tokens q qs g in
          let (_, same, lin) = w.whole l h q r at_l at (in_family-eq fk l q s w at_l i) in
          ground (arith, alike q.row lin)
    ]

pub subject_families-of :
    (sub : Subject) (keep : RefreshRow → Bool) (h : Bytes) (r : Token) (s : TokenStore)
    → IsLinked s
    → ((q : RefreshRow) → q.lineage ≡ r.row.lineage → keep q ≡ keep r.row)
    → token_at h s ≡ some r
    → r.row.subject ≡ sub
    → keep r.row ≡ false
    → has_key family_discrete (subject_families sub keep s (keys s.families)) (key_of r.row) ≡ true
subject_families-of sub keep h r s w alike at e k = ground (
  arith,
  has_key-subject_families sub keep s (keys s.families) (key_of r.row),
  is_subject_family-of sub keep h r s w alike at e k,
  has_key-families (key_of r.row) h s (listed_of h r s w at),
)

-- The family of a token is one of a subject exactly if the token is.
pub subject_families_iff :
    (sub : Subject) (h : Bytes) (r : Token) (s : TokenStore)
    → IsLinked s
    → token_at h s ≡ some r
    → has_key family_discrete (subject_families sub (λ q. false) s (keys s.families)) (key_of r.row)
      ≡ eqb subject_discrete r.row.subject sub
subject_families_iff sub h r s w at =
    let fk = key_of r.row in
    elim (subject_discrete r.row.subject sub) [
      | yes e ↦
          ground (arith, subject_families-of sub (λ q. false) h r s w (λ q lin. refl) at e refl)
      | no n ↦ elim (List-cases (rows_of (hashes fk s) s.tokens)) [
        | inl g ↦ ground (arith, has_key-subject_families sub (λ q. false) s (keys s.families) fk)
        | inr (q, qs, g) ↦
            let (l, i, at_l) = first-rows_of (hashes fk s) s.tokens q qs g in
            let (_, same, _) = w.whole l h q r at_l at (in_family-eq fk l q s w at_l i) in
            let other : q.row.subject ≢ sub = λ f. n (sym same ∙ f) in
            ground (arith, has_key-subject_families sub (λ q. false) s (keys s.families) fk)
      ]
    ]

-- After a successful RevokeForSubject, in a store whose tokens and families agree, no token of the
-- subject is returned by Get or rotated, whatever the context, the clock, the tenant and the next
-- record, unless it is of the lineage that the call keeps.
pub revoke_subject_ends :
    (ctx ctx' : Bool) (clk clk' except : ℕ) (sub : Subject) (next : RefreshRow) (t' h : Bytes)
    (r : Token) (s s' : TokenStore)
    → IsLinked s
    → revoke_subject_tokens ctx clk sub except s ≡ ok s'
    → token_at h s ≡ some r
    → r.row.subject ≡ sub
    → keeps_lineage except r.row ≡ false
    → (is_ok (get_token ctx' clk' t' h s') ≡ false)
      × (is_ok ((consume_for_rotation ctx' clk' next h s').1) ≡ false)
unfolding revoke_subject_tokens
revoke_subject_ends ctx ctx' clk clk' except sub next t' h r s s' w e at owner k =
    let fks = subject_families sub (keeps_lineage except) s (keys s.families) in
    let built : s' ≡ end_families false fks (micro clk) s = ground arith in
    let i =
      subject_families-of sub (keeps_lineage except) h r s w (λ q lin. ground arith) at owner k in
    let d : is_dead (token_at h s') ≡ true =
      rw built (end_families_dead fks (micro clk) (key_of r.row) h s i (listed_of h r s w at)) in
    (dead-get_token ctx' clk' t' h s' d, dead-consume ctx' clk' next h s' d)
