-- ===== src/Tokens/Store/Single.antt =====
-- Inserting, stamping and dropping one token keeps the tokens and the families linked.
use egauth.Base.{
  ◌≡◌, refl, true, false, not, ◌&&◌, List, [], ◌∷◌, ◌++◌, Bytes, if◌then◌else◌, eqb, is_empty, none,
  some, ok, arith, Option-cases, Bool-cases, inl, inr, bytes_discrete, ◌∙◌, any-append,
}
use egauth.Base.Maps.{put, delete, get-put, get-delete, has_key}
use egauth.Tokens.Record.{RefreshRow, check_refresh_row, restore_refresh}
use egauth.Tokens.Store.{
  FamilyKey, family_discrete, Token, TokenStore, key_of, token_at, hashes, refresh_row_of,
  new_token, insert,
}
use egauth.Tokens.Store.Families.{remove_hash, drop_token, drop_each, drop_family}
use egauth.Tokens.Store.Linked.{IsLinked}

abbrev pub added : RefreshRow → TokenStore → TokenStore
added row s = record s {
  tokens = put bytes_discrete row.token_hash (new_token row) s.tokens;
  families =
      put family_discrete (key_of row) (hashes (key_of row) s ++ (row.token_hash ∷ [])) s.families;
}

pub insert-eq-ok :
    (next : RefreshRow) (s t : TokenStore)
    → insert next s ≡ ok t
    → (t ≡ added (refresh_row_of next) s)
      × (token_at (refresh_row_of next).token_hash s ≡ none)
      × (check_refresh_row (refresh_row_of next) ≡ true)
unfolding insert restore_refresh
insert-eq-ok next s t e = (ground arith, ground arith, ground arith)

pub hashes-added :
    (row : RefreshRow) (s : TokenStore) (g : FamilyKey)
    → hashes g (added row s) ≡ (
        if eqb family_discrete (key_of row) g
        then hashes (key_of row) s ++ (row.token_hash ∷ [])
        else hashes g s)
hashes-added row s g = ground (
  arith,
  get-put family_discrete (key_of row) g (hashes (key_of row) s ++ (row.token_hash ∷ []))
      s.families,
)

-- A token under a new digest, in a family of its own subject and lineage with no token revoked.
pub added-IsLinked :
    (row : RefreshRow) (s : TokenStore)
    → IsLinked s
    → check_refresh_row row ≡ true
    → token_at row.token_hash s ≡ none
    → ((h : Bytes) (r : Token)
        → token_at h s ≡ some r
        → key_of r.row ≡ key_of row
        → (r.revoked ≡ false) × (r.row.subject ≡ row.subject) × (r.row.lineage ≡ row.lineage))
    → IsLinked (added row s)
added-IsLinked row s w good fresh live = record {
  linked = λ g h. ground (
    arith,
    hashes-added row s g,
    get-put bytes_discrete row.token_hash h (new_token row) s.tokens,
    w.linked g h,
    any-append (λ j. eqb bytes_discrete j h) (hashes (key_of row) s) (row.token_hash ∷ []),
  );
  named = λ h r f. elim (bytes_discrete row.token_hash h) [
    | yes same ↦ ground (arith, get-put bytes_discrete row.token_hash h (new_token row) s.tokens)
    | no other ↦
        w.named h r
          (ground (arith, get-put bytes_discrete row.token_hash h (new_token row) s.tokens))
  ];
  whole = λ h k r q f g same.
      let at_h = get-put bytes_discrete row.token_hash h (new_token row) s.tokens in
      let at_k = get-put bytes_discrete row.token_hash k (new_token row) s.tokens in
      (
        ground (arith, at_h, at_k, live h r, live k q, w.whole h k r q),
        ground (arith, at_h, at_k, live h r, live k q, w.whole h k r q),
        ground (arith, at_h, at_k, live h r, live k q, w.whole h k r q),
      );
}

-- A token rewritten with the same row and the same flag.
pub stamped-IsLinked :
    (h : Bytes) (r q : Token) (s : TokenStore)
    → IsLinked s
    → token_at h s ≡ some r
    → q.row ≡ r.row
    → q.revoked ≡ r.revoked
    → IsLinked (record s { tokens = put bytes_discrete h q s.tokens })
stamped-IsLinked h r q s w at row flag = record {
  linked = λ g k. w.linked g k ∙ ground (arith, get-put bytes_discrete h k q s.tokens);
  named = λ k x f. elim (bytes_discrete h k) [
    | yes same ↦
        let (name, good) = w.named h r at in ground (arith, get-put bytes_discrete h k q s.tokens)
    | no other ↦ w.named k x (ground (arith, get-put bytes_discrete h k q s.tokens))
  ];
  whole = λ k l x y f g same.
      let at_k = get-put bytes_discrete h k q s.tokens in
      let at_l = get-put bytes_discrete h l q s.tokens in
      (
        ground (arith, at_k, at_l, w.whole k l x y, w.whole h l r y, w.whole k h x r),
        ground (arith, at_k, at_l, w.whole k l x y, w.whole h l r y, w.whole k h x r),
        ground (arith, at_k, at_l, w.whole k l x y, w.whole h l r y, w.whole k h x r),
      );
}

has_key-remove_hash :
    (h k : Bytes) (ks : List Bytes)
    → has_key bytes_discrete (remove_hash h ks) k
      ≡ (has_key bytes_discrete ks k && not (eqb bytes_discrete h k))
unfolding remove_hash
has_key-remove_hash h k [] = refl
has_key-remove_hash h k (x ∷ xs) = ground (arith, has_key-remove_hash h k xs)

-- A token and its entry in the list of its family, left out.
abbrev without : Bytes → Token → TokenStore → TokenStore
without h r s = record s {
  tokens = delete bytes_discrete h s.tokens;
  families =
      if is_empty (remove_hash h (hashes (key_of r.row) s))
      then delete family_discrete (key_of r.row) s.families
      else put family_discrete (key_of r.row) (remove_hash h (hashes (key_of r.row) s)) s.families;
}

hashes-without :
    (h : Bytes) (r : Token) (s : TokenStore) (g : FamilyKey)
    → hashes g (without h r s) ≡ (
        if eqb family_discrete (key_of r.row) g
        then remove_hash h (hashes (key_of r.row) s)
        else hashes g s)
hashes-without h r s g = elim (Bool-cases (is_empty (remove_hash h (hashes (key_of r.row) s)))) [
  | inl e ↦ ground (arith, get-delete family_discrete (key_of r.row) g s.families)
  | inr e ↦ ground (
    arith,
    get-put family_discrete (key_of r.row) g (remove_hash h (hashes (key_of r.row) s)) s.families,
  )
]

without-IsLinked :
    (h : Bytes) (r : Token) (s : TokenStore)
    → IsLinked s
    → token_at h s ≡ some r
    → IsLinked (without h r s)
without-IsLinked h r s w at = record {
  linked = λ g k. ground (
    arith,
    hashes-without h r s g,
    get-delete bytes_discrete h k s.tokens,
    w.linked g k,
    has_key-remove_hash h k (hashes (key_of r.row) s),
  );
  named = λ k x f. w.named k x (ground (arith, get-delete bytes_discrete h k s.tokens));
  whole = λ k l x y f g same.
      w.whole k l x y (ground (arith, get-delete bytes_discrete h k s.tokens))
        (ground (arith, get-delete bytes_discrete h l s.tokens)) same;
}

pub drop_token-IsLinked : (h : Bytes) (s : TokenStore) → IsLinked s → IsLinked (drop_token h s)
unfolding drop_token
drop_token-IsLinked h s w = elim (Option-cases (token_at h s)) [
  | inl e ↦ rw (e, drop_token) w
  | inr (r, e) ↦ rw (e, drop_token) (without-IsLinked h r s w e)
]

drop_each-IsLinked : (hs : List Bytes) (s : TokenStore) → IsLinked s → IsLinked (drop_each hs s)
unfolding drop_each
drop_each-IsLinked [] s w = w
drop_each-IsLinked (h ∷ hs) s w = drop_each-IsLinked hs (drop_token h s) (drop_token-IsLinked h s w)

pub drop_family-IsLinked :
    (fk : FamilyKey) (s : TokenStore) → IsLinked s → IsLinked (drop_family fk s)
unfolding drop_family
drop_family-IsLinked fk s w = drop_each-IsLinked (hashes fk s) s w
