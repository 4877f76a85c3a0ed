-- ===== src/Tokens/Store/Family.antt =====
-- The state of a family, and what a reissue leaves of the family it replaces.
use egauth.Base.{
  ℕ, ◌≡◌, ◌≢◌, Bool, true, false, not, List, [], ◌∷◌, Bytes, any, some, ok, is_ok, arith,
  Option-cases, List-cases, Bool-cases, inl, inr, bytes_discrete, sym, ◌∙◌, ap, ◌≤◌,
}
use egauth.Base.Maps.{Map, get, get-put, has_key}
use mathlib.Core.Path.{subst}
use egauth.Sessions.Store.{micro}
use egauth.Tokens.Record.{RefreshRow}
use egauth.Tokens.Store.{
  FamilyKey, Token, TokenStore, key_of, token_at, hashes, rows_of, latest_end, revoke_key,
  refresh_row_of, new_token, get_token, consume_for_rotation,
}
use egauth.Tokens.Store.Families.{FamilyState, state_of, family_state, reissue}
use egauth.Tokens.Store.Linked.{IsLinked, get-mark_revoked}
use egauth.Tokens.Store.Single.{added, insert-eq-ok, hashes-added}
use egauth.Tokens.Store.Kept.{insert_fresh-IsLinked}
use egauth.Tokens.Store.Run.{reissue-eq-ok}
use egauth.Tokens.Store.Reuse.{is_dead, revoke_key_dead, dead-get_token, dead-consume}

pub any-rows_of-true :
    (p : Token → Bool) (hs : List Bytes) (h : Bytes) (r : Token) (m : Map Bytes Token)
    → has_key bytes_discrete hs h ≡ true
    → get bytes_discrete h m ≡ some r
    → p r ≡ true
    → any p (rows_of hs m) ≡ true
unfolding rows_of
any-rows_of-true p [] h r m i e t = absurd (ground arith)
any-rows_of-true p (k ∷ hs) h r m i e t = elim (Option-cases (get bytes_discrete k m)) [
  | inl f ↦ elim (bytes_discrete k h) [
    | yes same ↦ absurd (ground arith)
    | no other ↦ ground (arith, any-rows_of-true p hs h r m)
  ]
  | inr (q, f) ↦ elim (bytes_discrete k h) [
    | yes same ↦ ground arith
    | no other ↦ ground (arith, any-rows_of-true p hs h r m)
  ]
]

any-rows_of_sound :
    (p : Token → Bool) (hs : List Bytes) (m : Map Bytes Token)
    → any p (rows_of hs m) ≡ true
    → (h : Bytes) × (r : Token) × (has_key bytes_discrete hs h ≡ true)
      × (get bytes_discrete h m ≡ some r)
      × (p r ≡ true)
unfolding rows_of
any-rows_of_sound p [] m e = absurd (ground arith)
any-rows_of_sound p (k ∷ hs) m e = elim (Option-cases (get bytes_discrete k m)) [
  | inl f ↦
      let (h, r, i, at, t) = any-rows_of_sound p hs m (ground arith) in (h, r, ground arith, at, t)
  | inr (q, f) ↦ elim (Bool-cases (p q)) [
    | inl t ↦ (k, q, ground arith, f, t)
    | inr t ↦
        let (h, r, i, at, u) = any-rows_of_sound p hs m (ground arith) in
        (h, r, ground arith, at, u)
  ]
]

-- The first row of a family is the row of one of its tokens.
pub first-rows_of :
    (hs : List Bytes) (m : Map Bytes Token) (r : Token) (rs : List Token)
    → rows_of hs m ≡ r ∷ rs
    → (h : Bytes) × (has_key bytes_discrete hs h ≡ true) × (get bytes_discrete h m ≡ some r)
unfolding rows_of
first-rows_of [] m r rs e = absurd (ground arith)
first-rows_of (k ∷ hs) m r rs e = elim (Option-cases (get bytes_discrete k m)) [
  | inl f ↦ let (h, i, at) = first-rows_of hs m r rs (ground arith) in (h, ground arith, at)
  | inr (q, f) ↦ (k, ground arith, ground arith)
]

latest_end-rows_of :
    (hs : List Bytes) (h : Bytes) (r : Token) (m : Map Bytes Token)
    → has_key bytes_discrete hs h ≡ true
    → get bytes_discrete h m ≡ some r
    → r.row.family_expires_at ≤ latest_end (rows_of hs m)
unfolding rows_of latest_end
latest_end-rows_of [] h r m i e = absurd (ground arith)
latest_end-rows_of (k ∷ hs) h r m i e = elim (Option-cases (get bytes_discrete k m)) [
  | inl f ↦ elim (bytes_discrete k h) [
    | yes same ↦ absurd (ground arith)
    | no other ↦ ground (arith, latest_end-rows_of hs h r m)
  ]
  | inr (q, f) ↦ elim (bytes_discrete k h) [
    | yes same ↦ ground arith
    | no other ↦ ground (arith, latest_end-rows_of hs h r m)
  ]
]

pub in_family-eq :
    (fk : FamilyKey) (h : Bytes) (r : Token) (s : TokenStore)
    → IsLinked s
    → token_at h s ≡ some r
    → has_key bytes_discrete (hashes fk s) h ≡ true
    → key_of r.row ≡ fk
in_family-eq fk h r s w at i = ground (arith, w.linked fk h)

pub listed_of :
    (h : Bytes) (r : Token) (s : TokenStore)
    → IsLinked s
    → token_at h s ≡ some r
    → has_key bytes_discrete (hashes (key_of r.row) s) h ≡ true
listed_of h r s w at = ground (arith, w.linked (key_of r.row) h)

-- The state that Family reports for a family, in a store whose tokens and families agree, is the state
-- of each token of that family: its subject, its lineage and whether it is revoked, and the family ends
-- no earlier than the token does.
pub family_state_of_token :
    (ctx : Bool) (h : Bytes) (r : Token) (s : TokenStore) (f : FamilyState)
    → IsLinked s
    → token_at h s ≡ some r
    → family_state ctx r.row.subject.tenant r.row.family s ≡ ok f
    → (f.subject ≡ r.row.subject)
      × (f.lineage ≡ r.row.lineage)
      × (f.revoked ≡ r.revoked)
      × (r.row.family_expires_at ≤ f.expires_at)
unfolding family_state state_of
family_state_of_token ctx h r s f w at e =
    let fk = key_of r.row in
    let listed = listed_of h r s w at in
    elim (List-cases (rows_of (hashes fk s) s.tokens)) [
      | inl g ↦ absurd (ground arith)
      | inr (q, qs, g) ↦
          let built : f ≡ state_of q (q ∷ qs) = ground arith in
          let (k, i, at_k) = first-rows_of (hashes fk s) s.tokens q qs g in
          let (_, sub, lin) = w.whole k h q r at_k at (in_family-eq fk k q s w at_k i) in
          let flag : any (λ x. x.revoked) (rows_of (hashes fk s) s.tokens) ≡ r.revoked =
            elim (Bool-cases r.revoked) [
              | inl d ↦
                  any-rows_of-true (λ x. x.revoked) (hashes fk s) h r s.tokens listed at d ∙ sym d
              | inr d ↦ elim (Bool-cases (any (λ x. x.revoked) (rows_of (hashes fk s) s.tokens))) [
                | inl a ↦
                    let (l, x, il, at_l, dead) =
                      any-rows_of_sound (λ x. x.revoked) (hashes fk s) s.tokens a in
                    let (same, _, _) = w.whole l h x r at_l at (in_family-eq fk l x s w at_l il) in
                    absurd (ground arith)
                | inr a ↦ a ∙ sym d
              ]
            ] in
          let late = latest_end-rows_of (hashes fk s) h r s.tokens listed at in
          rw built (
            sub,
            lin,
            ap (any (λ x. x.revoked)) (sym g) ∙ flag,
            subst (λ rs. r.row.family_expires_at ≤ latest_end rs) g late,
          )
    ]

-- What Reissue leaves: the new token.
reissue-next :
    (fk : FamilyKey) (now : ℕ) (row : RefreshRow) (s : TokenStore)
    → key_of row ≢ fk
    → IsLinked (added row s)
    → token_at row.token_hash (revoke_key fk now (added row s)) ≡ some (new_token row)
unfolding revoke_key
reissue-next fk now row s other w =
    let at : token_at row.token_hash (added row s) ≡ some (new_token row) =
      ground
        (arith, get-put bytes_discrete row.token_hash row.token_hash (new_token row) s.tokens) in
    elim (Bool-cases
      (any (λ r. not r.revoked) (rows_of (hashes fk (added row s)) (added row s).tokens))) [
        | inr e ↦ rw (e, revoke_key) at
        | inl e ↦
            rw (e, revoke_key)
              (ground (
                arith,
                get-mark_revoked (hashes fk (added row s)) row.token_hash (added row s).tokens,
                w.linked fk row.token_hash,
              ))
      ]

-- After a successful Reissue, in a store whose tokens and families agree, no token of the replaced
-- family is returned by Get or rotated, whatever the context, the clock, the tenant and the next
-- record, and the new token stands in the store, neither revoked nor consumed.
pub reissue_replaces :
    (ctx ctx' : Bool) (clk clk' family : ℕ) (next next' : RefreshRow) (t' h : Bytes)
    (s s' : TokenStore)
    → IsLinked s
    → reissue ctx clk family next s ≡ ok s'
    → has_key bytes_discrete (hashes (record { tenant = next.subject.tenant; family = family }) s) h
      ≡ true
    → (is_ok (get_token ctx' clk' t' h s') ≡ false)
      × (is_ok ((consume_for_rotation ctx' clk' next' h s').1) ≡ false)
      × (token_at next.token_hash s' ≡ some (new_token (refresh_row_of next)))
unfolding refresh_row_of
reissue_replaces ctx ctx' clk clk' family next next' t' h s s' w e i =
    let (t, made, fresh, built, other) = reissue-eq-ok ctx clk family next s s' e in
    let (shape, _, _) = insert-eq-ok next s t made in
    let linked = insert_fresh-IsLinked next s t w fresh made in
    let fk : FamilyKey = record { tenant = next.subject.tenant; family = family } in
    let row = refresh_row_of next in
    let apart : key_of row ≢ fk = λ same. other (ap (λ (x : FamilyKey). x.family) same) in
    let kept : has_key bytes_discrete (hashes fk t) h ≡ true =
      rw shape (ground (arith, hashes-added row s fk)) in
    let d : is_dead (token_at h s') ≡ true = rw built (revoke_key_dead fk (micro clk) h t kept) in
    (
      dead-get_token ctx' clk' t' h s' d,
      dead-consume ctx' clk' next' h s' d,
      rw (built, shape) (reissue-next fk (micro clk) row s apart (rw (sym shape) linked)),
    )
