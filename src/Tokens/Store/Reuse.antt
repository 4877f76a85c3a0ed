-- ===== src/Tokens/Store/Reuse.antt =====
-- What the revocation of a family and the reuse of a token leave.
use egauth.Base.{
  ℕ, ◌≡◌, ◌≢◌, Bool, true, false, not, List, [], ◌∷◌, Bytes, any, Option, none, some, ok, err,
  is_ok, arith, Option-cases, Bool-cases, inl, inr, bytes_discrete,
}
use egauth.Base.Maps.{Map, get, put, get-put, has_key}
use egauth.Sessions.Store.{micro}
use egauth.Tokens.Record.{RefreshRow, restore_refresh, reused}
use egauth.Tokens.Store.{
  FamilyKey, Token, TokenStore, key_of, token_at, hashes, rows_of, mark_revoked, revoke_key,
  lookup_token, replayable, get_token, continues, replay, rotate_token, consume_for_rotation,
  insert, revoke_family,
}

-- A token that is there is revoked.
abbrev pub is_dead : Option Token → Bool
is_dead none = true
is_dead (some r) = r.revoked

is_dead-put :
    (h k : Bytes) (r : Token) (m : Map Bytes Token)
    → get bytes_discrete k m ≡ some r
    → is_dead (get bytes_discrete h m) ≡ true
    → is_dead (get bytes_discrete h (put bytes_discrete k (record r { revoked = true }) m)) ≡ true
is_dead-put h k r m e d = ground (arith, get-put bytes_discrete k h (record r { revoked = true }) m)

pub is_dead-mark_revoked :
    (hs : List Bytes) (h : Bytes) (m : Map Bytes Token)
    → is_dead (get bytes_discrete h m) ≡ true
    → is_dead (get bytes_discrete h (mark_revoked hs m)) ≡ true
unfolding mark_revoked
is_dead-mark_revoked [] h m d = d
is_dead-mark_revoked (k ∷ hs) h m d = elim (Option-cases (get bytes_discrete k m)) [
  | inl e ↦ rw (e, mark_revoked) (is_dead-mark_revoked hs h m d)
  | inr (r, e) ↦ rw (e, mark_revoked) (is_dead-mark_revoked hs h _ (is_dead-put h k r m e d))
]

member_is_dead :
    (hs : List Bytes) (h : Bytes) (m : Map Bytes Token)
    → has_key bytes_discrete hs h ≡ true
    → is_dead (get bytes_discrete h (mark_revoked hs m)) ≡ true
unfolding mark_revoked
member_is_dead [] h m i = absurd (ground arith)
member_is_dead (k ∷ hs) h m i = elim (bytes_discrete k h) [
  | yes e ↦ is_dead-mark_revoked hs h _ (elim (Option-cases (get bytes_discrete k m)) [
    | inl f ↦ rw f (ground arith)
    | inr (r, f) ↦ rw f (ground (arith, get-put bytes_discrete k h (record r { revoked = true }) m))
  ])
  | no e ↦ member_is_dead hs h _ (ground arith)
]

rows_of_dead :
    (hs : List Bytes) (h : Bytes) (m : Map Bytes Token)
    → has_key bytes_discrete hs h ≡ true
    → any (λ r. not r.revoked) (rows_of hs m) ≡ false
    → is_dead (get bytes_discrete h m) ≡ true
unfolding rows_of
rows_of_dead [] h m i d = absurd (ground arith)
rows_of_dead (k ∷ hs) h m i d = elim (Option-cases (get bytes_discrete k m)) [
  | inl f ↦ elim (bytes_discrete k h) [
    | yes e ↦ ground arith
    | no e ↦ rows_of_dead hs h m (ground arith) (ground arith)
  ]
  | inr (r, f) ↦ elim (bytes_discrete k h) [
    | yes e ↦ ground arith
    | no e ↦ rows_of_dead hs h m (ground arith) (ground arith)
  ]
]

pub revoke_key_dead :
    (fk : FamilyKey) (now : ℕ) (h : Bytes) (s : TokenStore)
    → has_key bytes_discrete (hashes fk s) h ≡ true
    → is_dead (token_at h (revoke_key fk now s)) ≡ true
unfolding revoke_key
revoke_key_dead fk now h s i =
    elim (Bool-cases (any (λ r. not r.revoked) (rows_of (hashes fk s) s.tokens))) [
      | inl e ↦ rw (e, revoke_key) (member_is_dead (hashes fk s) h s.tokens i)
      | inr e ↦ rw (e, revoke_key) (rows_of_dead (hashes fk s) h s.tokens i e)
    ]

pub dead-get_token :
    (ctx : Bool) (clk : ℕ) (t h : Bytes) (s : TokenStore)
    → is_dead (token_at h s) ≡ true
    → is_ok (get_token ctx clk t h s) ≡ false
unfolding get_token lookup_token replayable
dead-get_token ctx clk t h s d = ground arith

pub dead-consume :
    (ctx : Bool) (clk : ℕ) (next : RefreshRow) (h : Bytes) (s : TokenStore)
    → is_dead (token_at h s) ≡ true
    → is_ok ((consume_for_rotation ctx clk next h s).1) ≡ false
unfolding consume_for_rotation lookup_token replayable
dead-consume ctx clk next h s d = ground arith

-- After a successful RevokeFamily no token of the family is returned by Get or rotated, whatever the
-- context, the clock, the tenant and the next record.
pub revoke_family_ends :
    (ctx ctx' : Bool) (clk clk' family : ℕ) (t t' h : Bytes) (next : RefreshRow) (s s' : TokenStore)
    → revoke_family ctx clk t family s ≡ ok s'
    → has_key bytes_discrete (hashes (record { tenant = t; family = family }) s) h ≡ true
    → (is_ok (get_token ctx' clk' t' h s') ≡ false)
      × (is_ok ((consume_for_rotation ctx' clk' next h s').1) ≡ false)
unfolding revoke_family
revoke_family_ends ctx ctx' clk clk' family t t' h next s s' e i =
    let same : s' ≡ revoke_key (record { tenant = t; family = family }) (micro clk) s =
      ground arith in
    let d : is_dead (token_at h s') ≡ true = rw same (revoke_key_dead _ (micro clk) h s i) in
    (dead-get_token ctx' clk' t' h s' d, dead-consume ctx' clk' next h s' d)

rotate_token_unreused :
    (r : Token) (next : RefreshRow) (presented : Bytes) (now : ℕ) (s : TokenStore)
    → (rotate_token r next presented now s).1 ≢ err reused
unfolding rotate_token insert restore_refresh
rotate_token_unreused r next presented now s e = ground arith

replayable_unreused : (r : Token) (now : ℕ) → replayable r now ≢ err reused
unfolding replayable
replayable_unreused r now e = ground arith

consume-reused :
    (ctx : Bool) (clk : ℕ) (next : RefreshRow) (presented : Bytes) (s : TokenStore)
    → (consume_for_rotation ctx clk next presented s).1 ≡ err reused
    → (consume_for_rotation ctx clk next presented s).0 ≡ revoke_key (key_of next) (micro clk) s
unfolding consume_for_rotation replay continues
consume-reused ctx clk next presented s e =
    elim (Option-cases (lookup_token next.subject.tenant presented s)) [
      | inl f ↦ absurd (ground arith)
      | inr (r, f) ↦ ground (
        arith,
        replayable_unreused r (micro clk),
        rotate_token_unreused r next presented (micro clk) s,
      )
    ]

-- When ConsumeForRotation reports a reuse, no token of the family, under the tenant and family of the
-- next record, is returned by Get or rotated afterwards, whatever the context, the clock, the tenant
-- and the next record.
pub consume_reuse_ends :
    (ctx ctx' : Bool) (clk clk' : ℕ) (next next' : RefreshRow) (presented t' h : Bytes)
    (s : TokenStore)
    → (consume_for_rotation ctx clk next presented s).1 ≡ err reused
    → has_key bytes_discrete (hashes (key_of next) s) h ≡ true
    → (is_ok (get_token ctx' clk' t' h ((consume_for_rotation ctx clk next presented s).0)) ≡ false)
      × (is_ok (
            (consume_for_rotation ctx' clk' next' h
              ((consume_for_rotation ctx clk next presented s).0)).1)
          ≡ false)
consume_reuse_ends ctx ctx' clk clk' next next' presented t' h s e i =
    let d : is_dead (token_at h ((consume_for_rotation ctx clk next presented s).0)) ≡ true =
      rw (consume-reused ctx clk next presented s e) (revoke_key_dead _ (micro clk) h s i) in
    (dead-get_token ctx' clk' t' h _ d, dead-consume ctx' clk' next' h _ d)
