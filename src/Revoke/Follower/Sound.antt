-- ===== src/Revoke/Follower/Sound.antt =====
-- Each critical section keeps what is cached recent.
use mathlib.Core.Path.{subst}
use egauth.Base.{
  ℕ, ◌≤◌, ◌≡◌, refl, sym, ap, ◌∙◌, ◌⊎◌, inl, inr, true, List, [], ◌∷◌, ◌++◌, if◌then◌else◌, eqb,
  some, drop, length, length-append, arith, Option-cases, ℕ_discrete,
}
use egauth.Base.Maps.{get, put, delete, keys, get-put, get-delete, has_key}
use egauth.Revoke.Lru.{cached, lru_get, cached-lru_remove, cached-lru_remove_where}
use egauth.Revoke.Follower.{
  Follower, Note, begin_get, end_get, forget, forget_where, apply_page, restart, caught_up,
}
use egauth.Revoke.Follower.System.{
  System, Recent, IsSound, IsPage, Move, changes, begins, reads, lands, forgets, forgets_where,
  polls, restarts, catches_up, Moves, starts, moves,
}
use egauth.Revoke.Follower.Recency.{
  grows, cursor-end_get, cached-begin_get, lands-Recent, page-Recent,
}

module _ {K V : Type 0} (dec : Discrete K) where
  changes-IsSound :
      (s : System K V) (k : K) (v : V)
      → IsSound dec s
      → IsSound dec
          (record s { value = λ j. if eqb dec k j then v else s.value j; log = s.log ++ (k ∷ []) })
  changes-IsSound s k v w =
      let longer = length-append s.log (k ∷ []) in
      record {
        known = omega (arith, w.known, longer);
        entries = λ j x e. grows dec s k v j x s.follower.cursor w.known (w.entries j x e);
        noted = λ i n e. let b = w.noted i n e in omega (arith, b, longer);
        answered = λ i n x e.
            let (b, r) = w.answered i n x e in
            (omega (arith, b, longer), grows dec s k v n.key x n.since b r);
      }

  begins-IsSound :
      (s : System K V) (i now : ℕ) (k : K)
      → IsSound dec s
      → IsSound dec (record s {
        follower = (begin_get dec now k s.follower).0;
        notes = put ℕ_discrete i (begin_get dec now k s.follower).1.1 s.notes;
      })
  begins-IsSound s i now k w =
      let (_, kept, since) = cached-begin_get dec now k s.follower k in
      record {
        known = subst (λ c. c ≤ length s.log) (sym kept) w.known;
        entries = λ j x e.
            let (same, _, _) = cached-begin_get dec now k s.follower j in
            subst (Recent dec s j x) (sym kept) (w.entries j x (sym same ∙ e));
        noted = λ l n e. elim (ℕ_discrete i l) [
          | yes same ↦
              let mine : (begin_get dec now k s.follower).1.1 ≡ n =
                ground
                  (arith, get-put ℕ_discrete i l (begin_get dec now k s.follower).1.1 s.notes) in
              subst (λ (x : Note K). x.since ≤ length s.log) mine
                (subst (λ c. c ≤ length s.log) (sym since) w.known)
          | no other ↦
              w.noted l n (
                ground (arith, get-put ℕ_discrete i l (begin_get dec now k s.follower).1.1 s.notes))
        ];
        answered = w.answered;
      }

  reads-IsSound :
      (s : System K V) (i : ℕ) (n : Note K)
      → IsSound dec s
      → get ℕ_discrete i s.notes ≡ some n
      → IsSound dec (record s { answers = put ℕ_discrete i (n, s.value n.key) s.answers })
  reads-IsSound s i n w at = record {
    known = w.known;
    entries = w.entries;
    noted = w.noted;
    answered = λ l m x e. elim (ℕ_discrete i l) [
      | yes same ↦
          let now_read = get-put ℕ_discrete i l (n, s.value n.key) s.answers in
          let key : n ≡ m = ground (arith, now_read) in
          let read : s.value n.key ≡ x = ground (arith, now_read) in
          (
            subst (λ (y : Note K). y.since ≤ length s.log) key (w.noted i n at),
            inl (ap (λ (y : Note K). s.value y.key) (sym key) ∙ read),
          )
      | no other ↦
          w.answered l m x (ground (arith, get-put ℕ_discrete i l (n, s.value n.key) s.answers))
    ];
  }

  lands-IsSound :
      (s : System K V) (i now : ℕ) (n : Note K) (v : V)
      → IsSound dec s
      → get ℕ_discrete i s.answers ≡ some (n, v)
      → IsSound dec (record s {
        follower = end_get dec now n v s.follower;
        answers = delete ℕ_discrete i s.answers;
      })
  lands-IsSound s i now n v w at =
      let (_, recent) = w.answered i n v at in
      record {
        known = subst (λ c. c ≤ length s.log) (sym (cursor-end_get dec now n v s.follower)) w.known;
        entries = λ j x e. lands-Recent dec s now n v j x w recent e;
        noted = w.noted;
        answered =
            λ l m x e. w.answered l m x (ground (arith, get-delete ℕ_discrete i l s.answers));
      }

  -- A follower that keeps at most what was there, under the same cursor.
  keeps-IsSound :
      (s : System K V) (f : Follower K V)
      → IsSound dec s
      → f.cursor ≡ s.follower.cursor
      → ((j : K) (x : V)
          → cached dec j f.entries ≡ some x
          → cached dec j s.follower.entries ≡ some x)
      → IsSound dec (record s { follower = f })
  keeps-IsSound s f w same less = record {
    known = subst (λ c. c ≤ length s.log) (sym same) w.known;
    entries = λ j x e. subst (Recent dec s j x) (sym same) (w.entries j x (less j x e));
    noted = w.noted;
    answered = w.answered;
  }

  polls-IsSound :
      (s : System K V) (changed : List K) (next : ℕ)
      → IsSound dec s
      → IsPage dec s changed next
      → IsSound dec (record s { follower = apply_page dec changed next s.follower })
  unfolding apply_page
  polls-IsSound s changed next w page = record {
    known = ground (arith, w.known, page.reached);
    entries = λ j x e. page-Recent dec s changed next j x w page e;
    noted = w.noted;
    answered = w.answered;
  }

  Move-IsSound : {s t : System K V} → Move dec s t → IsSound dec s → IsSound dec t
  unfolding forget forget_where restart caught_up get
  Move-IsSound {s} {t} (changes k v) w = changes-IsSound s k v w
  Move-IsSound {s} {t} (begins i now k) w = begins-IsSound s i now k w
  Move-IsSound {s} {t} (reads i n at) w = reads-IsSound s i n w at
  Move-IsSound {s} {t} (lands i now n v at) w = lands-IsSound s i now n v w at
  Move-IsSound {s} {t} (forgets k) w =
      keeps-IsSound s (forget dec k s.follower) w refl
        (λ j x e. ground (arith, cached-lru_remove dec k j s.follower.entries))
  Move-IsSound {s} {t} (forgets_where p) w =
      keeps-IsSound s (forget_where dec p s.follower) w refl (λ j x e.
        cached-lru_remove_where dec p (keys s.follower.entries.nodes) j x s.follower.entries e)
  Move-IsSound {s} {t} (polls changed next page) w = polls-IsSound s changed next w page
  Move-IsSound {s} {t} restarts w = record {
    known = omega arith;
    entries = λ j x e. absurd (ground arith);
    noted = w.noted;
    answered = w.answered;
  }
  Move-IsSound {s} {t} (catches_up began) w =
      keeps-IsSound s (caught_up dec began s.follower) w refl (λ j x e. e)

  Moves-IsSound : (s : System K V) → Moves dec s → IsSound dec s
  unfolding get
  Moves-IsSound s (starts value capacity) = record {
    known = omega arith;
    entries = λ j x e. absurd (ground arith);
    noted = λ i n e. absurd (ground arith);
    answered = λ i n v e. absurd (ground arith);
  }
  Moves-IsSound s (moves r step) = Move-IsSound step (Moves-IsSound _ r)

  -- In every system that a new cache over a source reaches, in any order of changes of the source, of the
  -- beginnings, reads and ends of lookups, of forgetting and of the pages, restarts and ends of polls, a
  -- value that the cache answers without reading the source is the present value of the key, unless the
  -- log of changes names the key after the cursor of the cache.
  pub hit-Recent :
      (s : System K V) (now : ℕ) (k : K) (v : V)
      → Moves dec s
      → (begin_get dec now k s.follower).1.0 ≡ some v
      → (s.value k ≡ v) ⊎ (has_key dec (drop s.follower.cursor s.log) k ≡ true)
  unfolding begin_get lru_get
  hit-Recent s now k v r e =
      (Moves-IsSound s r).entries k v (elim (Option-cases (cached dec k s.follower.entries)) [
        | inl f ↦ ground arith
        | inr (x, f) ↦ ground arith
      ])
