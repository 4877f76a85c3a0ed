-- ===== src/Tokens/Store/Spared.antt =====
-- What a revocation of a subject leaves alone.
use egauth.Base.{
  ℕ, ◌≡◌, ◌≢◌, ◌⊎◌, Bool, true, false, not, List, [], ◌∷◌, Bytes, any, some, ok, arith, List-cases,
  Bool-cases, inl, inr, sym, ◌∙◌,
}
use egauth.Base.Maps.{keys, has_key}
use egauth.Core.Policy.{Subject}
use egauth.Sessions.Store.{micro}
use egauth.Tokens.Record.{RefreshRow}
use egauth.Tokens.Store.{
  FamilyKey, family_discrete, Token, TokenStore, key_of, token_at, hashes, rows_of, revoke_key,
}
use egauth.Tokens.Store.Families.{
  end_families, subject_families, keeps_lineage, revoke_subject_tokens,
}
use egauth.Tokens.Store.Linked.{IsLinked, get-mark_revoked, revoke_key-IsLinked}
use egauth.Tokens.Store.Family.{first-rows_of, in_family-eq}
use egauth.Tokens.Store.Holder.{has_key-subject_families}

revoke_key-spares :
    (fk : FamilyKey) (now : ℕ) (h : Bytes) (r : Token) (s : TokenStore)
    → IsLinked s
    → token_at h s ≡ some r
    → key_of r.row ≢ fk
    → token_at h (revoke_key fk now s) ≡ some r
unfolding revoke_key
revoke_key-spares fk now h r s w at other =
    elim (Bool-cases (any (λ q. not q.revoked) (rows_of (hashes fk s) s.tokens))) [
      | inl e ↦
          rw (e, revoke_key)
            (ground (arith, get-mark_revoked (hashes fk s) h s.tokens, in_family-eq fk h r s w at))
      | inr e ↦ rw (e, revoke_key) at
    ]

-- A token of none of the families revoked.
end_families-spares :
    (fks : List FamilyKey) (now : ℕ) (h : Bytes) (r : Token) (s : TokenStore)
    → IsLinked s
    → token_at h s ≡ some r
    → has_key family_discrete fks (key_of r.row) ≡ false
    → token_at h (end_families false fks now s) ≡ some r
unfolding end_families
end_families-spares [] now h r s w at out = at
end_families-spares (fk ∷ fks) now h r s w at out =
    let other : key_of r.row ≢ fk = λ same. absurd (ground (arith, sym same)) in
    end_families-spares fks now h r (revoke_key fk now s) (revoke_key-IsLinked fk now s w)
      (revoke_key-spares fk now h r s w at other) (ground arith)

-- The family of a token is not among those of a subject if the token is not, or is kept.
subject_families-spares :
    (sub : Subject) (keep : RefreshRow → Bool) (h : Bytes) (r : Token) (s : TokenStore)
    → IsLinked s
    → ((q : RefreshRow) → q.lineage ≡ r.row.lineage → keep q ≡ keep r.row)
    → token_at h s ≡ some r
    → (r.row.subject ≢ sub) ⊎ (keep r.row ≡ true)
    → has_key family_discrete (subject_families sub keep s (keys s.families)) (key_of r.row) ≡ false
subject_families-spares sub keep h r s w alike at spared =
    let fk = key_of r.row in
    elim (List-cases (rows_of (hashes fk s) s.tokens)) [
      | inl g ↦ ground (arith, has_key-subject_families sub keep s (keys s.families) fk)
      | inr (q, qs, g) ↦
          let (l, i, at_l) = first-rows_of (hashes fk s) s.tokens q qs g in
          let (_, same, lin) = w.whole l h q r at_l at (in_family-eq fk l q s w at_l i) in
          let kept = alike q.row lin in
          elim spared [
            | inl foreign ↦
                let other : q.row.subject ≢ sub = λ f. foreign (sym same ∙ f) in
                ground (arith, has_key-subject_families sub keep s (keys s.families) fk)
            | inr k ↦ ground (arith, has_key-subject_families sub keep s (keys s.families) fk)
          ]
    ]

-- After a successful RevokeForSubject, in a store whose tokens and families agree, each token of another
-- subject and each one of the lineage that the call keeps is as it was.
pub revoke_subject_spares :
    (ctx : Bool) (clk except : ℕ) (sub : Subject) (h : Bytes) (r : Token) (s s' : TokenStore)
    → IsLinked s
    → revoke_subject_tokens ctx clk sub except s ≡ ok s'
    → token_at h s ≡ some r
    → (r.row.subject ≢ sub) ⊎ (keeps_lineage except r.row ≡ true)
    → token_at h s' ≡ some r
unfolding revoke_subject_tokens
revoke_subject_spares ctx clk except sub h r s s' w e at spared =
    let fks = subject_families sub (keeps_lineage except) s (keys s.families) in
    let built : s' ≡ end_families false fks (micro clk) s = ground arith in
    let out =
      subject_families-spares sub (keeps_lineage except) h r s w (λ q lin. ground arith) at
        spared in
    rw built (end_families-spares fks (micro clk) h r s w at out)
