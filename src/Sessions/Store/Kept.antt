-- ===== src/Sessions/Store/Kept.antt =====
-- What a successful operation of the store passed and wrote, and that it keeps the invariant.
use egauth.Base.{
  ℕ, ◌≡◌, Bool, true, false, Bytes, if◌then◌else◌, eqb, ltb, none, some, ok, arith, Option-cases,
  inl, inr, ◌⊎◌, bytes_discrete, ℕ_discrete, sym, ◌∙◌,
}
use egauth.Base.Maps.{put, delete, get-put, get-delete}
use egauth.Sessions.Record.{Row, check_row, restore}
use egauth.Sessions.Store.{Store, row_at, id_of, live, create, row_of, micro}
use egauth.Sessions.Store.Calls.{lookup, rotate, same_session, found}
use egauth.Sessions.Store.Invariant.{IsConsistent}

abbrev pub stored : Row → Store → Store
stored r s = record s {
  rows = put ℕ_discrete r.id r s.rows;
  by_hash = put bytes_discrete r.token_hash r.id s.by_hash;
}

-- A row under a new id and a new digest.
pub stored-IsConsistent :
    (r : Row) (s : Store)
    → IsConsistent s
    → check_row r ≡ true
    → row_at r.id s ≡ none
    → id_of r.token_hash s ≡ none
    → IsConsistent (stored r s)
stored-IsConsistent r s w good fresh unused = record {
  indexed = λ h k f. elim (bytes_discrete r.token_hash h) [
    | yes same ↦ (
      r,
      ground (
        arith,
        get-put ℕ_discrete r.id k r s.rows,
        get-put bytes_discrete r.token_hash h r.id s.by_hash,
      ),
      same,
    )
    | no other ↦
        let (x, at, hash) =
          w.indexed h k (ground (arith, get-put bytes_discrete r.token_hash h r.id s.by_hash)) in
        (x, ground (arith, get-put ℕ_discrete r.id k r s.rows), hash)
  ];
  listed = λ k x f. elim (ℕ_discrete r.id k) [
    | yes same ↦ ground (
      arith,
      get-put ℕ_discrete r.id k r s.rows,
      get-put bytes_discrete r.token_hash x.token_hash r.id s.by_hash,
    )
    | no other ↦
        let (named, back, fine) =
          w.listed k x (ground (arith, get-put ℕ_discrete r.id k r s.rows)) in
        (
          named,
          ground (arith, get-put bytes_discrete r.token_hash x.token_hash r.id s.by_hash),
          fine,
        )
  ];
}

pub create-eq-ok :
    (ctx : Bool) (r : Row) (s s' : Store)
    → create ctx r s ≡ ok s'
    → (check_row (row_of r) ≡ true)
      × (row_at (row_of r).id s ≡ none)
      × (id_of (row_of r).token_hash s ≡ none)
      × (s' ≡ stored (row_of r) s)
unfolding create restore
create-eq-ok ctx r s s' e = ground arith

pub create-IsConsistent :
    (ctx : Bool) (r : Row) (s s' : Store)
    → IsConsistent s
    → create ctx r s ≡ ok s'
    → IsConsistent s'
create-IsConsistent ctx r s s' w e =
    let (good, fresh, unused, same) = create-eq-ok ctx r s s' e in
    rw same (stored-IsConsistent (row_of r) s w good fresh unused)

pub lookup-eq-some :
    (t hash : Bytes) (now : ℕ) (s : Store) (r : Row)
    → lookup t hash now s ≡ some r
    → (id : ℕ) × (id_of hash s ≡ some id)
      × (row_at id s ≡ some r)
      × (r.subject.tenant ≡ t)
      × (live r now ≡ true)
unfolding lookup
lookup-eq-some t hash now s r e = elim (Option-cases (id_of hash s)) [
  | inl f ↦ ground arith
  | inr (id, f) ↦ (id, ground arith, ground arith, ground arith, ground arith)
]

-- In a consistent store the row is under its own id, and its digest is the one looked up.
pub lookup-own :
    (t hash : Bytes) (now : ℕ) (s : Store) (r : Row)
    → IsConsistent s
    → lookup t hash now s ≡ some r
    → (row_at r.id s ≡ some r)
      × (r.token_hash ≡ hash)
      × (id_of hash s ≡ some r.id)
      × (check_row r ≡ true)
lookup-own t hash now s r w e =
    let (id, named, at, _, _) = lookup-eq-some t hash now s r e in
    let (same, back, good) = w.listed id r at in
    let (x, at_x, digest) = w.indexed hash id named in ground arith

-- The row of a session under a new digest.
abbrev pub moved : Row → Row → Store → Store
moved r next s = record s {
  rows = put ℕ_discrete r.id next s.rows;
  by_hash =
      put bytes_discrete next.token_hash next.id (delete bytes_discrete r.token_hash s.by_hash);
}

pub id_of-moved :
    (r next : Row) (s : Store) (h : Bytes)
    → id_of h (moved r next s) ≡ (
        if eqb bytes_discrete next.token_hash h
        then some next.id
        else (if eqb bytes_discrete r.token_hash h then none else id_of h s))
id_of-moved r next s h =
    get-put bytes_discrete next.token_hash h next.id (delete bytes_discrete r.token_hash s.by_hash)
    ∙ ground (arith, get-delete bytes_discrete r.token_hash h s.by_hash)

moved-IsConsistent :
    (r next : Row) (s : Store)
    → IsConsistent s
    → row_at r.id s ≡ some r
    → check_row next ≡ true
    → next.id ≡ r.id
    → (id_of next.token_hash s ≡ none) ⊎ (id_of next.token_hash s ≡ some r.id)
    → IsConsistent (moved r next s)
moved-IsConsistent r next s w at good same free = record {
  indexed = λ h k f. elim (bytes_discrete next.token_hash h) [
    | yes eq ↦
        (next, ground (arith, get-put ℕ_discrete r.id k next s.rows, id_of-moved r next s h), eq)
    | no other ↦
        let (x, found, digest) = w.indexed h k (ground (arith, id_of-moved r next s h)) in
        (x, ground (arith, get-put ℕ_discrete r.id k next s.rows, id_of-moved r next s h), digest)
  ];
  listed = λ k x f. elim (ℕ_discrete r.id k) [
    | yes eq ↦
        ground (arith, get-put ℕ_discrete r.id k next s.rows, id_of-moved r next s x.token_hash)
    | no other ↦
        let (named, back, fine) =
          w.listed k x (ground (arith, get-put ℕ_discrete r.id k next s.rows)) in
        let (_, own, _) = w.listed r.id r at in
        (named, ground (arith, id_of-moved r next s x.token_hash), fine)
  ];
}

pub rotate-eq-ok :
    (ctx : Bool) (clk : ℕ) (next : Row) (previous : Bytes) (s s' : Store)
    → rotate ctx clk next previous s ≡ ok s'
    → (r : Row) × (lookup next.subject.tenant previous (micro clk) s ≡ some r)
      × (r.id ≡ (row_of next).id)
      × (same_session r next ≡ true)
      × (ltb r.absolute_expires_at (row_of next).absolute_expires_at ≡ false)
      × ((id_of (row_of next).token_hash s ≡ none) ⊎ (id_of (row_of next).token_hash s ≡ some r.id))
      × (check_row (record (row_of next) { created_at = r.created_at }) ≡ true)
      × (s' ≡ moved r (record (row_of next) { created_at = r.created_at }) s)
unfolding rotate restore
rotate-eq-ok ctx clk next previous s s' e =
    elim (Option-cases (lookup next.subject.tenant previous (micro clk) s)) [
      | inl f ↦ ground arith
      | inr (r, f) ↦ elim (Option-cases (id_of (row_of next).token_hash s)) [
        | inl g ↦
            (r, f, ground arith, ground arith, ground arith, inl g, ground arith, ground arith)
        | inr (o, g) ↦ (
          r,
          f,
          ground arith,
          ground arith,
          ground arith,
          inr (ground arith),
          ground arith,
          ground arith,
        )
      ]
    ]

pub rotate-IsConsistent :
    (ctx : Bool) (clk : ℕ) (next : Row) (previous : Bytes) (s s' : Store)
    → IsConsistent s
    → rotate ctx clk next previous s ≡ ok s'
    → IsConsistent s'
rotate-IsConsistent ctx clk next previous s s' w e =
    let (r, found, same, _, _, free, good, eq) = rotate-eq-ok ctx clk next previous s s' e in
    let (at, _, _, _) = lookup-own next.subject.tenant previous (micro clk) s r w found in
    rw eq (
      moved-IsConsistent r (record (row_of next) { created_at = r.created_at }) s w at good
        (sym same) free)
