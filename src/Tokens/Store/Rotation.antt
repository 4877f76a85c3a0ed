-- ===== src/Tokens/Store/Rotation.antt =====
-- What a successful rotation passed and wrote, and that a token rotates once.
use egauth.Base.{
  ℕ, ◌≡◌, ◌≢◌, Bool, true, false, Bytes, ltb, none, some, ok, is_ok, arith, Option-cases, inl, inr,
  bytes_discrete, ◌∙◌, ap, ◌≤◌, ◌++◌, [], ◌∷◌, if◌then◌else◌, eqb,
}
use egauth.Base.Maps.{Map, get, put, get-put}
use egauth.Core.Policy.{zero_time}
use egauth.Sessions.Store.{micro}
use egauth.Tokens.Record.{RefreshRow, restore_refresh}
use egauth.Tokens.Store.{
  Token, TokenStore, token_at, lookup_token, replayable, continues, replay, rotate_token,
  consume_for_rotation, insert, refresh_row_of, new_token, FamilyKey, family_discrete,
  RotationResult, hashes, key_of,
}

-- What a successful rotation passed, and what it wrote.
pub record Rotated (clk : ℕ) (n : RotationResult) (next : RefreshRow) (presented : Bytes)
    (s s' : TokenStore) : Type 0 where
  pub old : Token
  pub found : lookup_token next.subject.tenant presented s ≡ some old
  pub unrevoked : old.revoked ≡ false
  pub unconsumed : old.consumed_at ≡ zero_time
  pub unexpired :
      (ltb (micro clk) old.row.idle_expires_at ≡ true)
      × (ltb (micro clk) old.row.family_expires_at ≡ true)
  pub same_subject : next.subject ≡ old.row.subject
  pub same_lineage : next.lineage ≡ old.row.lineage
  pub same_family : next.family ≡ old.row.family
  pub bounded : micro next.family_expires_at ≤ old.row.family_expires_at
  pub fresh : token_at next.token_hash s ≡ none
  pub issued : token_at next.token_hash s' ≡ some (new_token (refresh_row_of next))
  pub consumed :
      token_at presented s'
      ≡ some (record old { consumed_at = micro clk; consumed_by = next.client_fingerprint })
  pub kept : (h : Bytes) → h ≢ presented → h ≢ next.token_hash → token_at h s' ≡ token_at h s
  pub listed : hashes (key_of old.row) s' ≡ hashes (key_of old.row) s ++ (next.token_hash ∷ [])
  pub others_listed : (k : FamilyKey) → k ≢ key_of old.row → hashes k s' ≡ hashes k s
  pub feed_kept : s'.feed ≡ s.feed
  pub reported : (n.family ≡ old.row.family) × (n.consumed_at ≡ micro clk)
  pub keys_kept : (s'.keys ≡ s.keys) × (s'.key_ids ≡ s.key_ids)

abbrev used : Token → ℕ → RefreshRow → Token
used r clk next = record r { consumed_at = micro clk; consumed_by = next.client_fingerprint }

abbrev with_next : RefreshRow → TokenStore → Map Bytes Token
with_next next s = put bytes_discrete next.token_hash (new_token (refresh_row_of next)) s.tokens

lookup_token-there :
    (t h : Bytes) (s : TokenStore) (r : Token) → lookup_token t h s ≡ some r → token_at h s ≡ some r
unfolding lookup_token
lookup_token-there t h s r e = ground arith

consume-tokens :
    (ctx : Bool) (clk : ℕ) (n : RotationResult) (next : RefreshRow) (presented : Bytes)
    (s s' : TokenStore) (r : Token)
    → lookup_token next.subject.tenant presented s ≡ some r
    → consume_for_rotation ctx clk next presented s ≡ (s', ok n)
    → s'.tokens ≡ put bytes_discrete presented (used r clk next) (with_next next s)
unfolding consume_for_rotation replay rotate_token insert restore_refresh refresh_row_of
consume-tokens ctx clk n next presented s s' r f e = ground arith

consume-families :
    (ctx : Bool) (clk : ℕ) (n : RotationResult) (next : RefreshRow) (presented : Bytes)
    (s s' : TokenStore)
    → consume_for_rotation ctx clk next presented s ≡ (s', ok n)
    → (s'.families
        ≡ put family_discrete
            (key_of next)
            (hashes (key_of next) s ++ (next.token_hash ∷ []))
            s.families)
      × (s'.feed ≡ s.feed)
      × (s'.keys ≡ s.keys)
      × (s'.key_ids ≡ s.key_ids)
unfolding consume_for_rotation replay rotate_token insert restore_refresh refresh_row_of
consume-families ctx clk n next presented s s' e =
    (ground arith, ground arith, ground arith, ground arith)

consume-continues :
    (ctx : Bool) (clk : ℕ) (n : RotationResult) (next : RefreshRow) (presented : Bytes)
    (s s' : TokenStore) (r : Token)
    → lookup_token next.subject.tenant presented s ≡ some r
    → consume_for_rotation ctx clk next presented s ≡ (s', ok n)
    → (next.subject ≡ r.row.subject) × (next.lineage ≡ r.row.lineage) × (next.family ≡ r.row.family)
unfolding consume_for_rotation continues
consume-continues ctx clk n next presented s s' r f e = (ground arith, ground arith, ground arith)

-- The tokens after a rotation, one by one.
token_at-used :
    (presented h : Bytes) (r : Token) (clk : ℕ) (next : RefreshRow) (s : TokenStore)
    → get bytes_discrete h (put bytes_discrete presented (used r clk next) (with_next next s)) ≡ (
        if eqb bytes_discrete presented h
        then some (used r clk next)
        else (if eqb bytes_discrete next.token_hash h
            then some (new_token (refresh_row_of next))
            else token_at h s))
token_at-used presented h r clk next s = ground (
  arith,
  get-put bytes_discrete presented h (used r clk next) (with_next next s),
  get-put bytes_discrete next.token_hash h (new_token (refresh_row_of next)) s.tokens,
)

-- A successful ConsumeForRotation found the presented token of the next record's tenant, neither
-- revoked nor consumed nor expired; the next record has its subject, lineage and family, and ends no
-- later than its family. The next token is stored under a digest that was new, and listed behind the
-- others of the family; the presented one is marked as consumed now by the client of the next. Every
-- other token, the list of every other family, the feed and the API keys are as they were, and the
-- result reports the family and the instant.
pub consume-Rotated :
    (ctx : Bool) (clk : ℕ) (n : RotationResult) (next : RefreshRow) (presented : Bytes)
    (s s' : TokenStore)
    → consume_for_rotation ctx clk next presented s ≡ (s', ok n)
    → Rotated clk n next presented s s'
unfolding consume_for_rotation replay rotate_token insert restore_refresh refresh_row_of replayable
consume-Rotated ctx clk n next presented s s' e =
    elim (Option-cases (lookup_token next.subject.tenant presented s)) [
      | inl f ↦ absurd (ground arith)
      | inr (r, f) ↦
          let written = consume-tokens ctx clk n next presented s s' r f e in
          let (families, feed, keys, ids) = consume-families ctx clk n next presented s s' e in
          let (subject, lineage, family) = consume-continues ctx clk n next presented s s' r f e in
          let here : key_of r.row ≡ key_of next = ground arith in
          record {
            old = r;
            found = f;
            unrevoked = ground arith;
            unconsumed = ground arith;
            unexpired = (ground arith, ground arith);
            same_subject = subject;
            same_lineage = lineage;
            same_family = family;
            bounded = ground arith;
            fresh = ground arith;
            issued =
                ap (get bytes_discrete next.token_hash) written
                ∙ ground (
                  arith,
                  token_at-used presented next.token_hash r clk next s,
                  lookup_token-there next.subject.tenant presented s r f,
                );
            consumed =
                ap (get bytes_discrete presented) written
                ∙ ground (arith, token_at-used presented presented r clk next s);
            kept = λ h a b.
                ap (get bytes_discrete h) written
                ∙ ground (arith, token_at-used presented h r clk next s);
            listed =
                rw (families, here)
                  (ground (
                    arith,
                    get-put family_discrete (key_of next) (key_of next)
                        (hashes (key_of next) s ++ (next.token_hash ∷ [])) s.families,
                  ));
            others_listed = λ k a. rw families (
                ground (
                  arith,
                  here,
                  get-put family_discrete (key_of next) k
                      (hashes (key_of next) s ++ (next.token_hash ∷ [])) s.families,
                ));
            feed_kept = feed;
            reported = (ground arith, ground arith);
            keys_kept = (keys, ids);
          }
    ]

consumed_fails :
    (ctx : Bool) (clk : ℕ) (next : RefreshRow) (h : Bytes) (s : TokenStore) (r : Token)
    → token_at h s ≡ some r
    → r.consumed_at ≢ zero_time
    → is_ok ((consume_for_rotation ctx clk next h s).1) ≡ false
unfolding consume_for_rotation lookup_token replay
consumed_fails ctx clk next h s r e z = ground arith

-- A token that was rotated, at a reading of the clock that is not the zero time, is never rotated
-- again from the store that the rotation left, whatever the context, the clock and the next record.
pub consume_once :
    (ctx ctx' : Bool) (clk clk' : ℕ) (n : RotationResult) (next next' : RefreshRow)
    (presented : Bytes) (s s' : TokenStore)
    → micro clk ≢ zero_time
    → consume_for_rotation ctx clk next presented s ≡ (s', ok n)
    → is_ok ((consume_for_rotation ctx' clk' next' presented s').1) ≡ false
consume_once ctx ctx' clk clk' n next next' presented s s' z e =
    consumed_fails ctx' clk' next' presented s' _
      ((consume-Rotated ctx clk n next presented s s' e).consumed) z
