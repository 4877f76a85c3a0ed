-- ===== src/Revoke/Follower/Recency.antt =====
-- What each critical section of the cache leaves cached, and how recent it is.
use mathlib.Core.Path.{subst}
use egauth.Base.{
  ℕ, ◌-◌, ◌≤◌, ◌≡◌, refl, sym, ap, ◌∙◌, ◌⊎◌, inl, inr, true, ◌&&◌, List, [], ◌∷◌, ◌++◌,
  if◌then◌else◌, eqb, ltb, ◌==◌, some, drop, length, arith, Bool-cases,
}
use egauth.Base.Maps.{has_key}
use egauth.Revoke.Lru.{cached, lru_put, cached-lru_get, cached-lru_put, cached-lru_remove_each}
use egauth.Revoke.Follower.{Follower, Note, is_fresh, begin_get, end_get, apply_page}
use egauth.Revoke.Follower.Pages.{drop-snoc, page-drop}
use egauth.Revoke.Follower.System.{System, Recent, IsSound, IsPage}

module _ {K V : Type 0} (dec : Discrete K) where
  pub grows :
      (s : System K V) (k : K) (v : V) (j : K) (w : V) (c : ℕ)
      → c ≤ length s.log
      → Recent dec s j w c
      → Recent dec
          (record s { value = λ x. if eqb dec k x then v else s.value x; log = s.log ++ (k ∷ []) })
          j
          w
          c
  grows s k v j w c b r = elim (dec k j) [
    | yes same ↦ inr (ground (arith, drop-snoc dec c s.log k j b))
    | no other ↦ elim r [
      | inl e ↦ inl (ground arith)
      | inr i ↦ inr (ground (arith, drop-snoc dec c s.log k j b))
    ]
  ]

  pub cursor-end_get :
      (now : ℕ) (n : Note K) (v : V) (f : Follower K V) → (end_get dec now n v f).cursor ≡ f.cursor
  unfolding end_get
  cursor-end_get now n v f = ground arith

  -- What is cached after a lookup was there or is its answer, read at the cursor.
  cached-end_get :
      (now : ℕ) (n : Note K) (v : V) (f : Follower K V) (j : K) (w : V)
      → cached dec j (end_get dec now n v f).entries ≡ some w
      → (cached dec j f.entries ≡ some w) ⊎ ((n.key ≡ j) × (v ≡ w) × (n.since ≡ f.cursor))
  unfolding end_get
  cached-end_get now n v f j w e =
      elim (Bool-cases
        (n.was_fresh && (f.gen == n.at_gen && f.cursor == n.since && is_fresh f now))) [
          | inr skipped ↦ inl (ground arith)
          | inl kept ↦
              let put_there : cached dec j (lru_put dec n.key v f.entries) ≡ some w =
                ground arith in
              let found = cached-lru_put dec n.key j v w f.entries put_there in
              elim (dec n.key j) [
                | yes same ↦ inr (same, ground arith, ground arith)
                | no other ↦ inl (ground arith)
              ]
        ]

  pub lands-Recent :
      (s : System K V) (now : ℕ) (n : Note K) (v : V) (j : K) (w : V)
      → IsSound dec s
      → Recent dec s n.key v n.since
      → cached dec j (end_get dec now n v s.follower).entries ≡ some w
      → Recent dec s j w (end_get dec now n v s.follower).cursor
  lands-Recent s now n v j w sound recent e =
      subst (Recent dec s j w) (sym (cursor-end_get now n v s.follower))
        (elim (cached-end_get now n v s.follower j w e) [
          | inl old ↦ sound.entries j w old
          | inr (key, same, at) ↦ elim recent [
            | inl now_so ↦ inl (ap s.value (sym key) ∙ now_so ∙ same)
            | inr later ↦ inr (
                subst (λ k. has_key dec (drop s.follower.cursor s.log) k ≡ true) key
                  (subst (λ c. has_key dec (drop c s.log) n.key ≡ true) at later))
          ]
        ])

  pub cached-begin_get :
      (now : ℕ) (k : K) (f : Follower K V) (j : K)
      → (cached dec j (begin_get dec now k f).0.entries ≡ cached dec j f.entries)
        × ((begin_get dec now k f).0.cursor ≡ f.cursor)
        × ((begin_get dec now k f).1.1.since ≡ f.cursor)
  unfolding begin_get
  cached-begin_get now k f j = elim (Bool-cases (is_fresh f now)) [
    | inl fresh ↦ rw fresh (cached-lru_get dec k j f.entries, refl, refl)
    | inr stale ↦ rw stale (refl, refl, refl)
  ]

  -- What a page leaves cached is as recent at the cursor after it.
  pub page-Recent :
      (s : System K V) (changed : List K) (next : ℕ) (j : K) (w : V)
      → IsSound dec s
      → IsPage dec s changed next
      → cached dec j (apply_page dec changed next s.follower).entries ≡ some w
      → Recent dec s j w (apply_page dec changed next s.follower).cursor
  unfolding apply_page
  page-Recent s changed next j w sound page e =
      let left = cached-lru_remove_each dec changed j s.follower.entries in
      elim (Bool-cases (ltb s.follower.cursor next)) [
        | inr same ↦ rw same (sound.entries j w (ground arith))
        | inl later ↦ rw later (elim (sound.entries j w (ground arith)) [
          | inl e' ↦ inl e'
          | inr i ↦ inr (
              page-drop dec s.follower.cursor (next - s.follower.cursor) next s.log j (ground arith)
                i (ap (λ ks. has_key dec ks j) (sym page.all) ∙ ground arith))
        ])
      ]
