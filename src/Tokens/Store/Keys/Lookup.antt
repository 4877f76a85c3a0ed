-- ===== src/Tokens/Store/Keys/Lookup.antt =====
-- What a lookup of an API key finds after its creation and after its revocation.
use egauth.Base.{
  ℕ, ◌≡◌, ◌≢◌, Bool, false, not, ◌&&◌, if◌then◌else◌, leb, ◌==◌, some, ok, err, arith, Option-cases,
  inl, inr, ℕ_discrete,
}
use egauth.Base.Maps.{get, get-put}
use egauth.Core.Policy.{Subject, zero_time}
use egauth.Sessions.Store.{micro}
use egauth.Tokens.ApiKey.{ApiKey}
use egauth.Tokens.Record.{token_not_found}
use egauth.Tokens.Store.{ref_discrete, TokenStore}
use egauth.Tokens.Store.Keys.{key_row_of, ref_of, create_api_key, get_api_key, revoke_api_key}

-- Whether a key has expired at the instant of a clock.
abbrev key_expired : ApiKey → ℕ → Bool
key_expired k clk = not (k.expires_at == zero_time) && leb k.expires_at (micro clk)

-- After a successful CreateAPIKey, GetAPIKey under the tenant of its owner and its digest finds the key,
-- with its instants to the microsecond, until it expires.
create-get_api_key :
    (ctx : Bool) (clk : ℕ) (k : ApiKey) (s s' : TokenStore)
    → create_api_key ctx k s ≡ ok s'
    → get_api_key false clk k.owner.tenant k.key_hash s' ≡ (
        if key_expired (key_row_of k) clk
        then err token_not_found
        else ok (key_row_of (key_row_of k)))
unfolding create_api_key get_api_key
create-get_api_key ctx clk k s s' e =
    let at : get ref_discrete (ref_of k) s'.keys ≡ some (key_row_of k) =
      ground (arith, get-put ref_discrete (ref_of k) (ref_of k) (key_row_of k) s.keys) in
    rw at (ground arith)

-- After a successful RevokeAPIKey at an instant that is not the zero time to the microsecond, revoking
-- the key again changes nothing, at whatever instant: the first revocation stands.
revoke_api_key-again :
    (ctx : Bool) (clk clk' : ℕ) (owner : Subject) (id : ℕ) (s s' : TokenStore)
    → revoke_api_key ctx clk owner id s ≡ ok s'
    → micro clk ≢ zero_time
    → revoke_api_key false clk' owner id s' ≡ ok s'
unfolding revoke_api_key
revoke_api_key-again ctx clk clk' owner id s s' e later =
    elim (Option-cases (get ℕ_discrete id s.key_ids)) [
      | inl f ↦ absurd (ground arith)
      | inr (ref, f) ↦ elim (Option-cases (get ref_discrete ref s.keys)) [
        | inl g ↦ absurd (ground arith)
        | inr (k, g) ↦
            ground
              (arith, get-put ref_discrete ref ref (record k { revoked_at = micro clk }) s.keys)
      ]
    ]
