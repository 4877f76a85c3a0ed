-- ===== src/Revoke/Families.antt =====
-- internal/revoke/families.go: whether the family of an access token is live.
use egauth.Base.{
  ℕ, ◌≡◌, sym, ap, ◌∙◌, Bool, true, false, not, ◌&&◌, ◌||◌, ◌∷◌, Bytes, eqb, ◌==◌, Result, ok, err,
  is_ok, ◌>>◌, refuse_if, arith, List-cases, Result-cases, inl, inr, bytes_discrete,
}
use egauth.Base.Maps.{has_key}
use egauth.Core.Policy.{Subject, uuid_nil}
use egauth.Core.Pending.{subject_discrete}
use egauth.Sessions.Store.{micro}
use egauth.Tokens.Record.{TokenError, token_not_found}
use egauth.Tokens.Store.{FamilyKey, TokenStore, hashes, rows_of, revoke_key, revoke_family}
use egauth.Tokens.Store.Families.{FamilyState, family_live, state_of, family_state}
use egauth.Tokens.Store.Reuse.{revoke_key_dead}
use egauth.Tokens.Store.Family.{first-rows_of}
use egauth.Tokens.Store.Holder.{families-revoke_key}

pub data RevokeError : Type 0 where
  not_live unavailable : RevokeError

-- The tests of `Live` on a state.
abbrev pub check_live : Subject → ℕ → ℕ → FamilyState → Result RevokeError (Unit {0})
check_live s lineage now st = do
  refuse_if (not (eqb subject_discrete st.subject s)) not_live
  refuse_if (not (st.lineage == lineage)) not_live
  refuse_if (not (family_live st now)) not_live

-- `Live`, of what `get` answers: the cache, or FamilyState of the source.
unfoldable pub live_family :
    Subject → ℕ → ℕ → Result TokenError FamilyState → Result RevokeError (Unit {0})
live_family s lineage now (ok st) = check_live s lineage now st
live_family s lineage now (err token_not_found) = err not_live
live_family s lineage now (err e) = err unavailable

-- The entries that `ForgetSubject` and `ForgetTenant` drop.
abbrev pub of_subject : Subject → ℕ → FamilyKey → FamilyState → Bool
of_subject s keep k st =
    eqb subject_discrete st.subject s && (keep == uuid_nil || not (st.lineage == keep))

abbrev pub of_tenant : Bytes → FamilyKey → FamilyState → Bool
of_tenant t k st = eqb bytes_discrete k.tenant t

revoked_state :
    (ctx : Bool) (family now : ℕ) (t : Bytes) (s : TokenStore) (f : FamilyState)
    → family_state ctx t family (revoke_key (record { tenant = t; family = family }) now s) ≡ ok f
    → f.revoked ≡ true
unfolding family_state state_of
revoked_state ctx family now t s f e =
    let fk : FamilyKey = record { tenant = t; family = family } in
    let u = revoke_key fk now s in
    elim (List-cases (rows_of (hashes fk u) u.tokens)) [
      | inl g ↦ absurd (ground arith)
      | inr (r, rs, g) ↦
          let built : f ≡ state_of r (r ∷ rs) = ground arith in
          let (h, i, at) = first-rows_of (hashes fk u) u.tokens r rs g in
          let same : hashes fk u ≡ hashes fk s = ground (arith, families-revoke_key fk now s) in
          let dead =
            revoke_key_dead fk now h s (ap (λ hs. has_key bytes_discrete hs h) (sym same) ∙ i) in
          let flag : r.revoked ≡ true = ground arith in rw built (ground arith)
    ]

failed_live_family :
    (sub : Subject) (lineage now : ℕ) (x : TokenError)
    → is_ok (live_family sub lineage now (err x)) ≡ false
unfolding live_family
failed_live_family sub lineage now x = ground arith

-- After a successful RevokeFamily, Live refuses the family whenever it asks the store, whatever the
-- subject of that tenant, the lineage, the contexts and the clocks.
pub revoke_family-live_family :
    (ctx ctx' : Bool) (clk family lineage now : ℕ) (sub : Subject) (s s' : TokenStore)
    → revoke_family ctx clk sub.tenant family s ≡ ok s'
    → is_ok (live_family sub lineage now (family_state ctx' sub.tenant family s')) ≡ false
unfolding revoke_family live_family
revoke_family-live_family ctx ctx' clk family lineage now sub s s' e =
    let same : s' ≡ revoke_key (record { tenant = sub.tenant; family = family }) (micro clk) s =
      ground arith in
    elim (Result-cases (family_state ctx' sub.tenant family s')) [
      | inr (x, f) ↦ rw f (failed_live_family sub lineage now x)
      | inl (st, f) ↦
          let gone =
            revoked_state ctx' family (micro clk) sub.tenant s st
              (ap (family_state ctx' sub.tenant family) (sym same) ∙ f) in
          rw f (ground arith)
    ]
