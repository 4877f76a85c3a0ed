-- ===== src/Tokens/Store/Linked.antt =====
-- The tokens and the lists of their families agree, a family is revoked as a whole, and its tokens are
-- of one subject and lineage.
use egauth.Base.{
  ℕ, ◌≡◌, refl, Bool, true, false, not, ◌||◌, List, [], ◌∷◌, Bytes, if◌then◌else◌, any, eqb, Option,
  none, some, arith, Option-cases, Bool-cases, inl, inr, bytes_discrete, ◌∙◌, ap,
}
use egauth.Base.Maps.{Map, get, put, get-put, has_key}
use egauth.Tokens.Record.{RefreshRow, check_refresh_row}
use egauth.Tokens.Store.{
  FamilyKey, family_discrete, Token, TokenStore, new_token_store, key_of, token_at, hashes, rows_of,
  mark_revoked, revoke_key,
}

abbrev pub in_family : FamilyKey → Option Token → Bool
in_family fk none = false
in_family fk (some r) = eqb family_discrete (key_of r.row) fk

pub record IsLinked (s : TokenStore) : Type 0 where
  pub linked :
      (fk : FamilyKey) (h : Bytes)
      → has_key bytes_discrete (hashes fk s) h ≡ in_family fk (token_at h s)
  pub named :
      (h : Bytes) (r : Token)
      → token_at h s ≡ some r
      → (r.row.token_hash ≡ h) × (check_refresh_row r.row ≡ true)
  pub whole :
      (h k : Bytes) (r q : Token)
      → token_at h s ≡ some r
      → token_at k s ≡ some q
      → key_of r.row ≡ key_of q.row
      → (r.revoked ≡ q.revoked) × (r.row.subject ≡ q.row.subject) × (r.row.lineage ≡ q.row.lineage)

pub new_token_store-IsLinked : IsLinked new_token_store
unfolding get
new_token_store-IsLinked = record {
  linked = λ fk h. refl;
  named = λ h r e. cc;
  whole = λ h k r q e f g. cc;
}

abbrev pub revoked_copy : Option Token → Option Token
revoked_copy none = none
revoked_copy (some r) = some (record r { revoked = true })

pub get-mark_revoked :
    (hs : List Bytes) (h : Bytes) (m : Map Bytes Token)
    → get bytes_discrete h (mark_revoked hs m) ≡ (
        if has_key bytes_discrete hs h
        then revoked_copy (get bytes_discrete h m)
        else get bytes_discrete h m)
unfolding mark_revoked
get-mark_revoked [] h m = refl
get-mark_revoked (k ∷ hs) h m = elim (Option-cases (get bytes_discrete k m)) [
  | inl e ↦ rw (e, mark_revoked) (get-mark_revoked hs h m ∙ ground arith)
  | inr (r, e) ↦
      rw (e, mark_revoked)
        (get-mark_revoked hs h (put bytes_discrete k (record r { revoked = true }) m)
          ∙ ground (arith, get-put bytes_discrete k h (record r { revoked = true }) m))
]

-- The token that stood where a marked one stands.
pub marked_from :
    (fk : FamilyKey) (s : TokenStore) (h : Bytes) (r : Token)
    → get bytes_discrete h (mark_revoked (hashes fk s) s.tokens) ≡ some r
    → (q : Token) × (token_at h s ≡ some q)
      × (r.row ≡ q.row)
      × (r.revoked ≡ (q.revoked || has_key bytes_discrete (hashes fk s) h))
marked_from fk s h r e = elim (Option-cases (token_at h s)) [
  | inl f ↦ absurd (ground (arith, get-mark_revoked (hashes fk s) h s.tokens))
  | inr (q, f) ↦ (
    q,
    f,
    ground (arith, get-mark_revoked (hashes fk s) h s.tokens),
    ground (arith, get-mark_revoked (hashes fk s) h s.tokens),
  )
]

pub revoke_key-IsLinked :
    (fk : FamilyKey) (now : ℕ) (s : TokenStore) → IsLinked s → IsLinked (revoke_key fk now s)
unfolding revoke_key
revoke_key-IsLinked fk now s w =
    elim (Bool-cases (any (λ r. not r.revoked) (rows_of (hashes fk s) s.tokens))) [
      | inr e ↦ rw (e, revoke_key) w
      | inl e ↦
          rw (e, revoke_key)
            (record {
              linked =
                  λ g h. w.linked g h ∙ ground (arith, get-mark_revoked (hashes fk s) h s.tokens);
              named = λ h r f.
                  let (q, g, row, _) = marked_from fk s h r f in
                  let (name, good) = w.named h q g in
                  (
                    ap (λ (x : RefreshRow). x.token_hash) row ∙ name,
                    ap check_refresh_row row ∙ good,
                  );
              whole = λ h k r q f g same.
                  let (r', f', row, flag) = marked_from fk s h r f in
                  let (q', g', row', flag') = marked_from fk s k q g in
                  let both = w.whole h k r' q' f' g' in
                  (
                    ground (arith, w.linked fk h, w.linked fk k, both),
                    ground (arith, both),
                    ground (arith, both),
                  );
            })
    ]
