-- ===== src/Tokens/Store.antt =====
-- store/tokens/memory/store.go: tokens by digest, the digests of each family, and the feed of
-- revocations. `ctx` tells that the context is done, and `clk` is the reading of the store's clock.
pub mod Families
pub mod Linked
pub mod Single
pub mod Kept
pub mod Run
pub mod Keys
pub mod Reuse
pub mod Rotation
pub mod Family
pub mod Holder
pub mod Spared
pub mod Forgotten
use egauth.Base.{
  ℕ, ◌+◌, ◌*◌, ◌%◌, ◌^◌, max, Bool, true, false, not, ◌&&◌, ◌||◌, List, [], ◌∷◌, ◌++◌, Bytes,
  length, is_empty, if◌then◌else◌, any, eqb, ltb, leb, ◌==◌, Option, none, some, Result, ok, err,
  ◌>>=◌, ◌>>◌, refuse_if, bytes_discrete, ℕ_discrete,
}
use egauth.Base.Maps.{Map, get, put}
use egauth.Core.Policy.{Subject, zero_time, zero_subject, second}
use egauth.Core.Pending.{subject_discrete}
use egauth.Core.Attrs.{time_sub}
use egauth.Sessions.Record.{hash_len}
use egauth.Sessions.Store.{micro, next_seq, is_some}
use egauth.Tokens.ApiKey.{ApiKey}
use egauth.Tokens.Record.{
  TokenError, token_cancelled, bad_record, token_conflict, token_not_found, reused, concurrent,
  family_revoked, RefreshRow, restore_refresh,
}

abbrev pub reuse_grace : ℕ
reuse_grace = 10 * second

pub record FamilyKey : Type 0 where
  pub tenant : Bytes
  pub family : ℕ

unfoldable pub family_discrete : Discrete FamilyKey
unfolding bytes_discrete ℕ_discrete
family_discrete = hlevel (bytes_discrete, ℕ_discrete)

-- `refresh`; `consumed_at` is the zero time for a token that was not consumed.
pub record Token : Type 0 where
  pub row : RefreshRow
  pub consumed_at : ℕ
  pub consumed_by : Bytes
  pub revoked : Bool

pub record FamilyRevocation : Type 0 where
  pub seq : ℕ
  pub family : FamilyKey
  pub at : ℕ
  pub expires : ℕ

pub record KeyRef : Type 0 where
  pub tenant : Bytes
  pub hash : Bytes

unfoldable pub ref_discrete : Discrete KeyRef
unfolding bytes_discrete ℕ_discrete
ref_discrete = hlevel (bytes_discrete, ℕ_discrete)

pub record TokenStore : Type 0 where
  pub tokens : Map Bytes Token
  pub families : Map FamilyKey (List Bytes)
  pub feed : List FamilyRevocation
  pub seq : ℕ
  pub keys : Map KeyRef ApiKey
  pub key_ids : Map ℕ KeyRef

abbrev pub new_token_store : TokenStore
new_token_store = record { tokens = []; families = []; feed = []; seq = 0; keys = []; key_ids = [] }

abbrev pub key_of : RefreshRow → FamilyKey
key_of r = record { tenant = r.subject.tenant; family = r.family }

abbrev pub token_at : Bytes → TokenStore → Option Token
token_at h s = get bytes_discrete h s.tokens

-- `s.families[fk]`, empty for a key that is not there.
abbrev pub hashes : FamilyKey → TokenStore → List Bytes
hashes fk s = elim (get family_discrete fk s.families) [ none ↦ [] | some hs ↦ hs ]

-- The rows of a list of digests; a digest with no token would be a nil dereference.
unfoldable pub rows_of : List Bytes → Map Bytes Token → List Token
rows_of [] m = []
rows_of (h ∷ hs) m = elim (get bytes_discrete h m) [
  | none ↦ rows_of hs m
  | some r ↦ r ∷ rows_of hs m
]

unfoldable pub latest_end : List Token → ℕ
latest_end [] = zero_time
latest_end (r ∷ rs) = max r.row.family_expires_at (latest_end rs)

-- The loop of `revoke` over the tokens.
unfoldable pub mark_revoked : List Bytes → Map Bytes Token → Map Bytes Token
mark_revoked [] m = m
mark_revoked (h ∷ hs) m = mark_revoked hs (elim (get bytes_discrete h m) [
  | none ↦ m
  | some r ↦ put bytes_discrete h (record r { revoked = true }) m
])

-- `revoke`: nothing is appended when every token was revoked already.
unfoldable pub revoke_key : FamilyKey → ℕ → TokenStore → TokenStore
revoke_key fk now s =
    let rs = rows_of (hashes fk s) s.tokens in
    if not (any (λ r. not r.revoked) rs) then s else record s {
      tokens = mark_revoked (hashes fk s) s.tokens;
      feed =
          s.feed
          ++ (record { seq = next_seq s.seq; family = fk; at = now; expires = latest_end rs } ∷ []);
      seq = next_seq s.seq;
    }

-- `rowOf`.
unfoldable pub refresh_row_of : RefreshRow → RefreshRow
refresh_row_of r = record r {
  idle_expires_at = micro r.idle_expires_at;
  family_expires_at = micro r.family_expires_at;
  created_at = micro r.created_at;
}

abbrev pub new_token : RefreshRow → Token
new_token r = record { row = r; consumed_at = zero_time; consumed_by = []; revoked = false }

unfoldable pub insert : RefreshRow → TokenStore → Result TokenError TokenStore
insert r s = do
  row ← restore_refresh (refresh_row_of r)
  refuse_if (is_some (token_at row.token_hash s)) token_conflict
  ok (record s {
    tokens = put bytes_discrete row.token_hash (new_token row) s.tokens;
    families =
        put family_discrete (key_of row) (hashes (key_of row) s ++ (row.token_hash ∷ []))
          s.families;
  })

unfoldable pub create_family : Bool → RefreshRow → TokenStore → Result TokenError TokenStore
create_family ctx r s = do
  refuse_if ctx token_cancelled
  refuse_if (is_empty r.token_hash) bad_record
  refuse_if (is_some (get family_discrete (key_of r) s.families)) token_conflict
  insert r s

unfoldable pub lookup_token : Bytes → Bytes → TokenStore → Option Token
lookup_token t hash s = elim (token_at hash s) [
  | none ↦ none
  | some r ↦ if eqb bytes_discrete r.row.subject.tenant t then some r else none
]

-- `replayable` over `usable`: a consumed token stays known past its idle window.
unfoldable pub replayable : Token → ℕ → Result TokenError (Unit {0})
replayable r now =
    if r.revoked || leb r.row.family_expires_at now
    then err family_revoked
    else refuse_if (leb r.row.idle_expires_at now && r.consumed_at == zero_time) token_not_found

unfoldable pub get_token : Bool → ℕ → Bytes → Bytes → TokenStore → Result TokenError RefreshRow
get_token ctx clk t hash s = do
  refuse_if ctx token_cancelled
  elim (lookup_token t hash s) [
    | none ↦ err token_not_found
    | some r ↦ replayable r (micro clk) >> restore_refresh r.row
  ]

-- `Rotation` of store/tokens/store.go.
pub record RotationResult : Type 0 where
  pub family : ℕ
  pub consumed_at : ℕ

unfoldable pub continues : RefreshRow → RefreshRow → Bool
continues r next =
    eqb subject_discrete r.subject next.subject
    && r.lineage == next.lineage
    && r.family == next.family

-- The end of `ConsumeForRotation` for a token that was consumed already.
unfoldable pub replay :
    Token → RefreshRow → ℕ → TokenStore → TokenStore × Result TokenError RotationResult
replay r next now s =
    if ltb (time_sub now r.consumed_at) reuse_grace
      && not (is_empty r.consumed_by)
      && eqb bytes_discrete r.consumed_by next.client_fingerprint
    then (s, err concurrent)
    else (revoke_key (key_of r.row) now s, err reused)

-- The end of `ConsumeForRotation` for a token that was not.
unfoldable pub rotate_token :
    Token → RefreshRow → Bytes → ℕ → TokenStore → TokenStore × Result TokenError RotationResult
rotate_token r next presented now s =
    if ltb r.row.family_expires_at (micro next.family_expires_at)
    then (s, err token_conflict)
    else elim (insert next s) [
      | err e ↦ (s, err e)
      | ok t ↦ (
        record t {
          tokens =
              put bytes_discrete presented
                (record r { consumed_at = now; consumed_by = next.client_fingerprint }) t.tokens;
        },
        ok (record { family = r.row.family; consumed_at = now }),
      )
    ]

-- `ConsumeForRotation`: the store afterwards, and the family and instant of the rotation or the error.
unfoldable pub consume_for_rotation :
    Bool → ℕ → RefreshRow → Bytes → TokenStore → TokenStore × Result TokenError RotationResult
consume_for_rotation ctx clk next presented s =
    if ctx
    then (s, err token_cancelled)
    else (if is_empty next.token_hash || not (length presented == hash_len)
        then (s, err bad_record)
        else elim (lookup_token next.subject.tenant presented s) [
          | none ↦ (s, err token_not_found)
          | some r ↦ elim (replayable r (micro clk)) [
            | err e ↦ (s, err e)
            | ok _ ↦
                if not (continues r.row next)
                then (s, err token_conflict)
                else (if not (r.consumed_at == zero_time)
                    then replay r next (micro clk) s
                    else rotate_token r next presented (micro clk) s)
          ]
        ])

unfoldable pub revoke_family : Bool → ℕ → Bytes → ℕ → TokenStore → Result TokenError TokenStore
revoke_family ctx clk t family s = do
  refuse_if ctx token_cancelled
  ok (revoke_key (record { tenant = t; family = family }) (micro clk) s)
