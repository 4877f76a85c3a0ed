-- ===== src/Tests/Families.antt =====
-- Families of refresh tokens on a concrete store: its history, its state, a reissue and the ends of a
-- subject and a tenant.
use egauth.Base.{
  ◌+◌, ◌*◌, ◌≤◌, true, false, ◌≡◌, ◌↔◌, inr, ◌≢◌, refl, sym, ap, [], ◌∷◌, ok, is_ok, some,
  bytes_discrete, ℕ_discrete,
}
use egauth.Base.Maps.{get, put, delete, keys}
use egauth.Core.Policy.{second}
use egauth.Core.Pending.{subject_discrete}
use egauth.Tokens.Record.{RefreshRow, restore_refresh, check_refresh_row}
use egauth.Tokens.Store.{
  TokenStore, family_discrete, new_token_store, new_token, refresh_row_of, insert, create_family,
  get_token, consume_for_rotation, revoke_key, mark_revoked, rows_of, latest_end, token_at,
}
use egauth.Tokens.Store.Families.{
  FamilyState, family_state, state_of, reissue, revoke_subject_tokens, delete_subject_tokens,
  erase_tenant_tokens, end_families, subject_families, insert_family, families_of_tenant,
  drop_family, drop_each, drop_token, remove_hash, drop_keys_where,
}
use egauth.Tokens.Store.Linked.{IsLinked}
use egauth.Tokens.Store.Run.{History, unused, written, creates, consumes, History-IsLinked}
use egauth.Tokens.Store.Family.{family_state_of_token, reissue_replaces}
use egauth.Tokens.Store.Holder.{revoke_subject_ends}
use egauth.Tokens.Store.Spared.{revoke_subject_spares}
use egauth.Tokens.Store.Forgotten.{delete_subject_forgets}
use egauth.Tests.Login.{start_at, user, acme}
use egauth.Tests.Stores.{digest}
use egauth.Tests.Tokens.{
  first_row, second_row, third_row, key, one_token, two_tokens, used_first, create_family-first,
  rotate-second,
}

two_tokens-History : History two_tokens
two_tokens-History =
    written
      (written unused
        (creates {s = new_token_store} {s' = one_token} false first_row create_family-first))
      (consumes {s = one_token} {s' = two_tokens} false (start_at + 60 * second) second_row
        (digest 1) (ap (λ p. p.0) (sym rotate-second)))

History-IsLinked_example : IsLinked two_tokens
History-IsLinked_example = History-IsLinked two_tokens two_tokens-History

-- Another family of the same user.
abbrev other_row : RefreshRow
other_row = record first_row { token_hash = digest 4; family = 32; lineage = 22 }

abbrev three_tokens : TokenStore
three_tokens = record new_token_store {
  tokens =
      (digest 1, used_first)
      ∷ (digest 2, new_token second_row)
      ∷ (digest 4, new_token other_row)
      ∷ [];
  families =
      (key, digest 1 ∷ digest 2 ∷ []) ∷ (record { tenant = acme; family = 32 }, digest 4 ∷ []) ∷ [];
}

create_family-other : create_family false other_row two_tokens ≡ ok three_tokens
unfolding create_family insert restore_refresh check_refresh_row refresh_row_of get put
    bytes_discrete ℕ_discrete family_discrete
create_family-other = refl

three_tokens-IsLinked : IsLinked three_tokens
three_tokens-IsLinked = History-IsLinked three_tokens (
    written two_tokens-History
      (creates {s = two_tokens} {s' = three_tokens} false other_row create_family-other))

abbrev family_now : FamilyState
family_now = record {
  subject = user;
  lineage = 21;
  revoked = false;
  expires_at = start_at + 3600 * second;
}

family_state-two : family_state false acme 31 two_tokens ≡ ok family_now
unfolding family_state state_of rows_of latest_end get bytes_discrete ℕ_discrete family_discrete
family_state-two = refl

family_state_of_token_example :
    (family_now.subject ≡ user)
    × (family_now.lineage ≡ 21)
    × (family_now.revoked ≡ false)
    × (start_at + 3600 * second ≤ family_now.expires_at)
unfolding get bytes_discrete ℕ_discrete
family_state_of_token_example =
    family_state_of_token false (digest 1) used_first two_tokens family_now
      (History-IsLinked two_tokens two_tokens-History) refl family_state-two

abbrev reissue_row : RefreshRow
reissue_row = record first_row { token_hash = digest 5; family = 33 }

abbrev reissued : TokenStore
reissued = record new_token_store {
  tokens =
      (digest 1, record used_first { revoked = true })
      ∷ (digest 2, record (new_token second_row) { revoked = true })
      ∷ (digest 5, new_token reissue_row)
      ∷ [];
  families =
      (key, digest 1 ∷ digest 2 ∷ []) ∷ (record { tenant = acme; family = 33 }, digest 5 ∷ []) ∷ [];
  feed =
      record {
        seq = 1;
        family = key;
        at = start_at + 90 * second;
        expires = start_at + 3600 * second;
      }
      ∷ [];
  seq = 1;
}

reissue-two : reissue false (start_at + 90 * second) 31 reissue_row two_tokens ≡ ok reissued
unfolding reissue state_of insert restore_refresh check_refresh_row refresh_row_of revoke_key
    mark_revoked rows_of latest_end get put bytes_discrete ℕ_discrete subject_discrete
    family_discrete
reissue-two = refl

reissue_replaces_example :
    (is_ok (get_token false (start_at + 91 * second) acme (digest 2) reissued) ≡ false)
    × (is_ok ((consume_for_rotation false (start_at + 91 * second) third_row (digest 2) reissued).1)
        ≡ false)
    × (token_at (digest 5) reissued ≡ some (new_token (refresh_row_of reissue_row)))
unfolding get bytes_discrete ℕ_discrete family_discrete
reissue_replaces_example =
    reissue_replaces false false (start_at + 90 * second) (start_at + 91 * second) 31 reissue_row
      third_row acme (digest 2) two_tokens reissued (History-IsLinked two_tokens two_tokens-History)
      reissue-two refl

abbrev without_first : TokenStore
without_first = record reissued {
  tokens =
      (digest 1, record used_first { revoked = true })
      ∷ (digest 2, record (new_token second_row) { revoked = true })
      ∷ (digest 4, new_token other_row)
      ∷ [];
  families = three_tokens.families;
}

-- The other login of the user is kept.
revoke_subject-three :
    revoke_subject_tokens false (start_at + 90 * second) user 22 three_tokens ≡ ok without_first
unfolding revoke_subject_tokens subject_families insert_family end_families revoke_key mark_revoked
    rows_of latest_end get put keys bytes_discrete ℕ_discrete subject_discrete family_discrete
revoke_subject-three = refl

revoke_subject_ends_example :
    (is_ok (get_token false (start_at + 91 * second) acme (digest 2) without_first) ≡ false)
    × (is_ok (
          (consume_for_rotation false
            (start_at + 91 * second)
            third_row
            (digest 2)
            without_first).1)
        ≡ false)
unfolding get bytes_discrete ℕ_discrete
revoke_subject_ends_example =
    revoke_subject_ends false false (start_at + 90 * second) (start_at + 91 * second) 22 user
      third_row acme (digest 2) (new_token second_row) three_tokens without_first
      three_tokens-IsLinked revoke_subject-three refl refl refl

revoke_subject_spares_example : token_at (digest 4) without_first ≡ some (new_token other_row)
unfolding get bytes_discrete ℕ_discrete
revoke_subject_spares_example =
    revoke_subject_spares false (start_at + 90 * second) 22 user (digest 4) (new_token other_row)
      three_tokens without_first three_tokens-IsLinked revoke_subject-three refl (inr refl)

abbrev foreign_row : RefreshRow
foreign_row = record first_row {
  token_hash = digest 6;
  family = 34;
  subject = record { tenant = 7 ∷ []; user = 9 };
}

abbrev mixed_tokens : TokenStore
mixed_tokens = record new_token_store {
  tokens = (digest 1, new_token first_row) ∷ (digest 6, new_token foreign_row) ∷ [];
  families = (key, digest 1 ∷ []) ∷ (record { tenant = 7 ∷ []; family = 34 }, digest 6 ∷ []) ∷ [];
}

create_family-foreign : create_family false foreign_row one_token ≡ ok mixed_tokens
unfolding create_family insert restore_refresh check_refresh_row refresh_row_of get put
    bytes_discrete ℕ_discrete family_discrete
create_family-foreign = refl

mixed_tokens-IsLinked : IsLinked mixed_tokens
mixed_tokens-IsLinked = History-IsLinked mixed_tokens (
    written
      (written unused
        (creates {s = new_token_store} {s' = one_token} false first_row create_family-first))
      (creates {s = one_token} {s' = mixed_tokens} false foreign_row create_family-foreign))

abbrev foreign_left : TokenStore
foreign_left = record new_token_store {
  tokens = (digest 6, new_token foreign_row) ∷ [];
  families = (record { tenant = 7 ∷ []; family = 34 }, digest 6 ∷ []) ∷ [];
  feed =
      record {
        seq = 1;
        family = key;
        at = start_at + 90 * second;
        expires = start_at + 3600 * second;
      }
      ∷ [];
  seq = 1;
}

delete_subject-mixed :
    delete_subject_tokens false (start_at + 90 * second) user mixed_tokens ≡ ok foreign_left
unfolding delete_subject_tokens subject_families insert_family end_families revoke_key mark_revoked
    rows_of latest_end drop_family drop_each drop_token remove_hash drop_keys_where get put delete
    keys bytes_discrete ℕ_discrete subject_discrete family_discrete
delete_subject-mixed = refl

erase_tenant-mixed :
    erase_tenant_tokens false (start_at + 90 * second) acme mixed_tokens ≡ ok foreign_left
unfolding erase_tenant_tokens families_of_tenant end_families revoke_key mark_revoked rows_of
    latest_end drop_family drop_each drop_token remove_hash drop_keys_where get put delete keys
    bytes_discrete ℕ_discrete subject_discrete family_discrete
erase_tenant-mixed = refl

delete_subject_forgets_example :
    (token_at (digest 6) foreign_left ≡ some (new_token foreign_row)) ↔ (
      (token_at (digest 6) mixed_tokens ≡ some (new_token foreign_row))
      × (foreign_row.subject ≢ user))
delete_subject_forgets_example =
    delete_subject_forgets false (start_at + 90 * second) user (digest 6) (new_token foreign_row)
      mixed_tokens foreign_left mixed_tokens-IsLinked delete_subject-mixed
