-- ===== src/Tokens/Store/Kept.antt =====
-- Creating, rotating and replaying keep the tokens and the families linked.
use egauth.Base.{
  ℕ, ◌≡◌, refl, ◌≢◌, Bool, true, false, not, ◌&&◌, ◌||◌, Bytes, eqb, ltb, ◌==◌, is_empty, none,
  some, ok, arith, Option-cases, Result-cases, length, Bool-cases, inl, inr, bytes_discrete, sym,
  ◌∙◌,
}
use egauth.Base.Maps.{get, get-put}
use egauth.Core.Policy.{zero_time}
use egauth.Core.Attrs.{time_sub}
use egauth.Sessions.Record.{hash_len}
use egauth.Sessions.Store.{micro}
use egauth.Tokens.Record.{RefreshRow}
use egauth.Tokens.Store.{
  FamilyKey, family_discrete, Token, TokenStore, key_of, token_at, refresh_row_of, insert,
  create_family, lookup_token, replayable, continues, replay, rotate_token, consume_for_rotation,
  new_token, reuse_grace,
}
use egauth.Tokens.Store.Linked.{IsLinked, revoke_key-IsLinked}
use egauth.Tokens.Store.Single.{added, insert-eq-ok, added-IsLinked, stamped-IsLinked}

pub same_tokens-IsLinked :
    (s t : TokenStore) → IsLinked s → t.tokens ≡ s.tokens → t.families ≡ s.families → IsLinked t
same_tokens-IsLinked s t w e f = record {
  linked = rw (e, f) w.linked;
  named = rw e w.named;
  whole = rw e w.whole;
}

key_of-refresh_row_of : (r : RefreshRow) → key_of (refresh_row_of r) ≡ key_of r
unfolding refresh_row_of
key_of-refresh_row_of r = refl

lookup_token-there :
    (t h : Bytes) (s : TokenStore) (r : Token) → lookup_token t h s ≡ some r → token_at h s ≡ some r
unfolding lookup_token
lookup_token-there t h s r e = ground arith

replayable-live : (r : Token) (now : ℕ) (x : Unit {0}) → replayable r now ≡ ok x → r.revoked ≡ false
unfolding replayable
replayable-live r now x e = ground arith

continues-key :
    (r next : RefreshRow)
    → continues r next ≡ true
    → (key_of r ≡ key_of next)
      × ((r.subject ≡ (refresh_row_of next).subject) × (r.lineage ≡ (refresh_row_of next).lineage))
unfolding continues refresh_row_of
continues-key r next e = (ground arith, (ground arith, ground arith))

token_at-added :
    (row : RefreshRow) (h : Bytes) (s : TokenStore) (r : Token)
    → token_at row.token_hash s ≡ none
    → token_at h s ≡ some r
    → token_at h (added row s) ≡ some r
token_at-added row h s r fresh at =
    ground (arith, get-put bytes_discrete row.token_hash h (new_token row) s.tokens)

replay-IsLinked :
    (r : Token) (next : RefreshRow) (now : ℕ) (s : TokenStore)
    → IsLinked s
    → IsLinked (replay r next now s).0
unfolding replay
replay-IsLinked r next now s w =
    elim (Bool-cases (
      ltb (time_sub now r.consumed_at) reuse_grace
      && not (is_empty r.consumed_by)
      && eqb bytes_discrete r.consumed_by next.client_fingerprint)) [
        | inl e ↦ rw (e, replay) w
        | inr e ↦ rw (e, replay) (revoke_key-IsLinked (key_of r.row) now s w)
      ]

-- A family that is not in the map has no token.
no_family :
    (s : TokenStore) (fk : FamilyKey) (h : Bytes) (r : Token)
    → IsLinked s
    → get family_discrete fk s.families ≡ none
    → token_at h s ≡ some r
    → key_of r.row ≢ fk
no_family s fk h r w e at same = ground (arith, w.linked fk h)

pub insert_fresh-IsLinked :
    (next : RefreshRow) (s t : TokenStore)
    → IsLinked s
    → get family_discrete (key_of next) s.families ≡ none
    → insert next s ≡ ok t
    → IsLinked t
insert_fresh-IsLinked next s t w none_there e =
    let (built, fresh, good) = insert-eq-ok next s t e in
    rw built (
      added-IsLinked (refresh_row_of next) s w good fresh (λ h r at same.
        absurd (no_family s (key_of next) h r w none_there at (same ∙ key_of-refresh_row_of next))))

pub create_family-IsLinked :
    (ctx : Bool) (r : RefreshRow) (s t : TokenStore)
    → IsLinked s
    → create_family ctx r s ≡ ok t
    → IsLinked t
unfolding create_family
create_family-IsLinked ctx r s t w e = insert_fresh-IsLinked r s t w (ground arith) (ground arith)

rotate_token-IsLinked :
    (r : Token) (next : RefreshRow) (presented : Bytes) (now : ℕ) (s : TokenStore)
    → IsLinked s
    → token_at presented s ≡ some r
    → r.revoked ≡ false
    → key_of r.row ≡ key_of next
    → (r.row.subject ≡ (refresh_row_of next).subject)
      × (r.row.lineage ≡ (refresh_row_of next).lineage)
    → IsLinked (rotate_token r next presented now s).0
unfolding rotate_token
rotate_token-IsLinked r next presented now s w at live same holder =
    elim (Bool-cases (ltb r.row.family_expires_at (micro next.family_expires_at))) [
      | inl e ↦ rw (e, rotate_token) w
      | inr e ↦ elim (Result-cases (insert next s)) [
        | inr (x, f) ↦ rw (e, f, rotate_token) w
        | inl (t, f) ↦
            let (built, fresh, good) = insert-eq-ok next s t f in
            let grown : IsLinked t = rw built (
              added-IsLinked (refresh_row_of next) s w good fresh (λ h q there kin.
                let both =
                  w.whole h presented q r there at (kin ∙ key_of-refresh_row_of next ∙ sym same) in
                (both.0 ∙ live, both.1 ∙ holder.0, both.2 ∙ holder.1))) in
            let still : token_at presented t ≡ some r =
              rw built (token_at-added (refresh_row_of next) presented s r fresh at) in
            rw (e, f, rotate_token) (stamped-IsLinked presented r _ t grown still refl refl)
      ]
    ]

pub consume-IsLinked :
    (ctx : Bool) (clk : ℕ) (next : RefreshRow) (presented : Bytes) (s : TokenStore)
    → IsLinked s
    → IsLinked (consume_for_rotation ctx clk next presented s).0
unfolding consume_for_rotation replay
consume-IsLinked ctx clk next presented s w = elim (Bool-cases ctx) [
  | inl e ↦ rw (e, consume_for_rotation) w
  | inr e ↦ elim (Bool-cases (is_empty next.token_hash || not (length presented == hash_len))) [
    | inl f ↦ rw (e, f, consume_for_rotation) w
    | inr f ↦ elim (Option-cases (lookup_token next.subject.tenant presented s)) [
      | inl g ↦ rw (e, f, g, consume_for_rotation) w
      | inr (r, g) ↦ elim (Result-cases (replayable r (micro clk))) [
        | inr (x, h) ↦ rw (e, f, g, h, consume_for_rotation) w
        | inl (x, h) ↦ elim (Bool-cases (continues r.row next)) [
          | inr c ↦ rw (e, f, g, h, c, consume_for_rotation) w
          | inl c ↦ elim (Bool-cases (r.consumed_at == zero_time)) [
            | inl z ↦
                rw (e, f, g, h, c, z, consume_for_rotation)
                  (rotate_token-IsLinked r next presented (micro clk) s w
                    (lookup_token-there next.subject.tenant presented s r g)
                    (replayable-live r (micro clk) x h) (continues-key r.row next c).0
                    (continues-key r.row next c).1)
            | inr z ↦
                rw (e, f, g, h, c, z, consume_for_rotation) (replay-IsLinked r next (micro clk) s w)
          ]
        ]
      ]
    ]
  ]
]
