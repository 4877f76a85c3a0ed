-- ===== src/Sessions/Store/Invariant.antt =====
-- The rows and the index of token digests agree, and every operation keeps it so.
use egauth.Base.{
  ℕ, ◌≡◌, Bool, true, List, [], ◌∷◌, Bytes, some, arith, Option-cases, inl, inr, bytes_discrete,
  ℕ_discrete,
}
use egauth.Base.Maps.{get, delete, get-delete}
use egauth.Sessions.Record.{Row, check_row}
use egauth.Sessions.Store.{Store, row_at, id_of, end_session, end_each, end_where, new_store}

pub record IsConsistent (s : Store) : Type 0 where
  pub indexed :
      (h : Bytes) (id : ℕ)
      → id_of h s ≡ some id
      → (r : Row) × (row_at id s ≡ some r) × (r.token_hash ≡ h)
  pub listed :
      (id : ℕ) (r : Row)
      → row_at id s ≡ some r
      → (r.id ≡ id) × (id_of r.token_hash s ≡ some id) × (check_row r ≡ true)

pub new_store-IsConsistent : IsConsistent new_store
unfolding get
new_store-IsConsistent = record { indexed = λ h id e. cc; listed = λ id r e. cc }

-- A row and its digest leave together.
pub dropped-IsConsistent :
    (id : ℕ) (r : Row) (s : Store)
    → IsConsistent s
    → row_at id s ≡ some r
    → IsConsistent (record s {
      rows = delete ℕ_discrete id s.rows;
      by_hash = delete bytes_discrete r.token_hash s.by_hash;
    })
dropped-IsConsistent id r s w e = record {
  indexed = λ h k f.
      let (x, at, hash) =
        w.indexed h k (ground (arith, get-delete bytes_discrete r.token_hash h s.by_hash)) in
      (
        x,
        ground (
          arith,
          get-delete bytes_discrete r.token_hash h s.by_hash,
          get-delete ℕ_discrete id k s.rows,
        ),
        hash,
      );
  listed = λ k x f.
      let (named, back, good) = w.listed k x (ground (arith, get-delete ℕ_discrete id k s.rows)) in
      let (_, own, _) = w.listed id r e in
      (
        named,
        ground (
          arith,
          get-delete ℕ_discrete id k s.rows,
          get-delete bytes_discrete r.token_hash x.token_hash s.by_hash,
        ),
        good,
      );
}

pub end_session-IsConsistent :
    (id now : ℕ) (s : Store) → IsConsistent s → IsConsistent (end_session id now s)
unfolding end_session
end_session-IsConsistent id now s w = elim (Option-cases (row_at id s)) [
  | inl e ↦ rw (e, end_session) w
  | inr (r, e) ↦
      let rest = dropped-IsConsistent id r s w e in
      rw (e, end_session) (record { indexed = rest.indexed; listed = rest.listed })
]

end_each-IsConsistent :
    (ids : List ℕ) (now : ℕ) (s : Store) → IsConsistent s → IsConsistent (end_each ids now s)
unfolding end_each
end_each-IsConsistent [] now s w = w
end_each-IsConsistent (id ∷ ids) now s w =
    end_each-IsConsistent ids now (end_session id now s) (end_session-IsConsistent id now s w)

pub end_where-IsConsistent :
    (match : Row → Bool) (now : ℕ) (s : Store)
    → IsConsistent s
    → IsConsistent (end_where match now s)
unfolding end_where
end_where-IsConsistent match now s w = end_each-IsConsistent _ now s w
