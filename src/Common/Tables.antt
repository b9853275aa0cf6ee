-- ===== src/Common/Tables.antt =====
-- Tables of rows, as a database keeps them: the rows that a test selects, read, deleted, changed.
use mathlib.Core.Path.{◌≡◌, refl}
use mathlib.Core.Logic.{inl, inr}
use mathlib.Core.Bool.{Bool, true, false}
use mathlib.Core.Option.{Option, none, some}
use mathlib.Core.List.{List, [], ◌∷◌}
use palaestra_mcp_bridge.Common.Tests.{if◌then◌else◌, Bool-cases}
use native.Mathlib.Omega.{arith}
use palaestra_mcp_bridge.Common.Lists.{All}

module _ {A : Type 0} where
  -- SELECT … WHERE …, its first row
  unfoldable pub find_where : (A → Bool) → List A → Option A
  find_where test [] = none
  find_where test (r ∷ rs) = let rest = find_where test rs in if test r then some r else rest

  -- DELETE … WHERE …
  unfoldable pub delete_where : (A → Bool) → List A → List A
  delete_where test [] = []
  delete_where test (r ∷ rs) = let rest = delete_where test rs in if test r then rest else r ∷ rest

  -- UPDATE … SET … WHERE …
  unfoldable pub set_where : (A → Bool) → (A → A) → List A → List A
  set_where test set [] = []
  set_where test set (r ∷ rs) = (if test r then set r else r) ∷ set_where test set rs

  pub find_where-delete_where_self :
      (test : A → Bool) (rows : List A) → find_where test (delete_where test rows) ≡ none
  unfolding find_where delete_where
  find_where-delete_where_self test [] = refl
  find_where-delete_where_self test (r ∷ rs) = elim (Bool-cases (test r)) [
    | inl e ↦ rw e (find_where-delete_where_self test rs)
    | inr e ↦ rw (e, find_where) (rw e (find_where-delete_where_self test rs))
  ]

  -- What was not found is not found after a deletion.
  pub find_where-delete_where_absent :
      (test other : A → Bool) (rows : List A)
      → find_where test rows ≡ none
      → find_where test (delete_where other rows) ≡ none
  unfolding find_where delete_where
  find_where-delete_where_absent test other [] h = refl
  find_where-delete_where_absent test other (r ∷ rs) h =
      ground (arith, find_where-delete_where_absent test other rs)

  pub find_where_sound :
      (test : A → Bool) (rows : List A) {r : A} → find_where test rows ≡ some r → test r ≡ true
  unfolding find_where
  find_where_sound test [] h = absurd (cc h)
  find_where_sound test (x ∷ rs) {r} h = elim (Bool-cases (test x)) [
    | inl e ↦ cc
    | inr e ↦ find_where_sound test rs (rw e at h)
  ]

  pub All-find_where {κ} :
      (P : A → Type κ) (test : A → Bool) (rows : List A) {r : A}
      → All P rows
      → find_where test rows ≡ some r
      → P r
  unfolding find_where
  All-find_where P test [] p h = absurd (cc h)
  All-find_where P test (x ∷ rs) {r} p h = elim (Bool-cases (test x)) [
    | inl e ↦ ground (arith, p)
    | inr e ↦ All-find_where P test rs p.1 (rw e at h)
  ]

  pub All-delete_where {κ} :
      (P : A → Type κ) (test : A → Bool) (rows : List A)
      → All P rows
      → All P (delete_where test rows)
  unfolding delete_where
  All-delete_where P test [] p = tt
  All-delete_where P test (r ∷ rs) p = elim (Bool-cases (test r)) [
    | inl e ↦ rw e (All-delete_where P test rs p.1)
    | inr e ↦ rw e (p.0, All-delete_where P test rs p.1)
  ]

  -- What is found after a deletion was not selected by it.
  pub find_where-delete_where_sound :
      (test other : A → Bool) (rows : List A) {r : A}
      → find_where test (delete_where other rows) ≡ some r
      → other r ≡ false
  unfolding find_where delete_where
  find_where-delete_where_sound test other [] h = absurd (cc h)
  find_where-delete_where_sound test other (x ∷ rs) {r} h = elim (Bool-cases (other x)) [
    | inl e ↦ find_where-delete_where_sound test other rs (rw e at h)
    | inr e ↦ elim (Bool-cases (test x)) [
      | inl k ↦ ground (arith, rw (e, find_where, k) at h)
      | inr k ↦ find_where-delete_where_sound test other rs (rw (e, find_where, k) at h)
    ]
  ]

  -- After an update of the rows of a test to one that passes it, that one is found.
  pub find_where-set_where_self :
      (test : A → Bool) (row : A) (rows : List A) {r : A}
      → test row ≡ true
      → find_where test rows ≡ some r
      → find_where test (set_where test (λ _. row) rows) ≡ some row
  unfolding find_where set_where
  find_where-set_where_self test row [] p h = absurd (cc h)
  find_where-set_where_self test row (x ∷ rs) {r} p h = elim (Bool-cases (test x)) [
    | inl e ↦ rw (e, p) refl
    | inr e ↦ rw (e, e) (find_where-set_where_self test row rs p (rw e at h))
  ]

  -- Once all the rows of a test are deleted by another, none is found.
  pub find_where-delete_where_every :
      (test other : A → Bool) (rows : List A)
      → All (λ r. test r ≡ true → other r ≡ true) rows
      → find_where test (delete_where other rows) ≡ none
  unfolding find_where delete_where
  find_where-delete_where_every test other [] h = refl
  find_where-delete_where_every test other (r ∷ rs) h = elim (Bool-cases (other r)) [
    | inl e ↦ rw e (find_where-delete_where_every test other rs h.1)
    | inr e ↦ elim (Bool-cases (test r)) [
      | inl k ↦ absurd (cc (e, h.0 k))
      | inr k ↦ rw (e, find_where, k) (find_where-delete_where_every test other rs h.1)
    ]
  ]
