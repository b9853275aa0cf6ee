-- ===== src/Common/Dict.antt =====
-- Go's maps with string keys, as association lists: a missing key gives `none`, a write replaces
-- or adds an entry, and the order of the entries stands for the order in which `range` meets them.
use mathlib.Core.Path.{◌≡◌, refl, subst₂}
use mathlib.Core.Logic.{inl, inr}
use mathlib.Core.Option.{Option, none, some}
use mathlib.Core.List.{List, [], ◌∷◌}
use native.Mathlib.Omega.{arith}
use Prim.Native.String.{String}
use text.Mathlib.Text.{◌==◌}
use text.Mathlib.TextEquality.{eq_iff}
use text.Mathlib.TextPositions.{eq_refl}
use palaestra_mcp_bridge.Common.Tests.{if◌then◌else◌, Bool-cases}
use palaestra_mcp_bridge.Common.Lists.{All}

abbrev pub Dict {ℓ} : Type ℓ → Type ℓ
Dict V = List (String × V)

module _ {ℓ} {V : Type ℓ} where
  -- The entry's value, if `key` is in the map.
  unfoldable pub lookup : String → Dict V → Option V
  lookup key [] = none
  lookup key (entry ∷ rest) = if entry.0 == key then some entry.1 else lookup key rest

  -- `m[key] = value`
  unfoldable pub insert : String → V → Dict V → Dict V
  insert key value [] = (key, value) ∷ []
  insert key value (entry ∷ rest) =
      let further = insert key value rest in
      if entry.0 == key then (key, value) ∷ rest else entry ∷ further

  -- `delete(m, key)`
  unfoldable pub remove : String → Dict V → Dict V
  remove key [] = []
  remove key (entry ∷ rest) =
      let further = remove key rest in if entry.0 == key then further else entry ∷ further

  -- What is read at `at` after a write at `key`.
  pub lookup-insert :
      (key at : String) (value : V) (m : Dict V)
      → lookup at (insert key value m) ≡ (if key == at then some value else lookup at m)
  unfolding lookup insert
  lookup-insert key at value [] = refl
  lookup-insert key at value (entry ∷ rest) =
      let ih = lookup-insert key at value rest in
      ground (arith, ih, eq_iff entry.0 at, eq_iff entry.0 key, eq_iff key at)

  pub lookup-insert_self :
      (key : String) (value : V) (m : Dict V) → lookup key (insert key value m) ≡ some value
  lookup-insert_self key value m = rw (lookup-insert, eq_refl key)

  pub lookup-remove :
      (key at : String) (m : Dict V)
      → lookup at (remove key m) ≡ (if key == at then none else lookup at m)
  unfolding lookup remove
  lookup-remove key at [] = ground arith
  lookup-remove key at (entry ∷ rest) =
      let ih = lookup-remove key at rest in
      ground (arith, ih, eq_iff entry.0 at, eq_iff entry.0 key, eq_iff key at)

  -- What holds of every entry, holds of what is read, and stays so after a write.
  pub All-lookup {κ} :
      (P : String → V → Type κ) (k : String) (m : Dict V) {v : V}
      → All (λ e. P e.0 e.1) m
      → lookup k m ≡ some v
      → P k v
  unfolding lookup
  All-lookup P k [] h e = cc
  All-lookup P k ((j, w) ∷ m) {v} h e = elim (Bool-cases (j == k)) [
    | inl hit ↦ subst₂ P ((eq_iff j k).0 hit) (ground arith) h.0
    | inr miss ↦ All-lookup P k m h.1 (rw miss at e)
  ]

  pub All-insert {κ} :
      (P : String → V → Type κ) (k : String) (v : V) (m : Dict V)
      → All (λ e. P e.0 e.1) m
      → P k v
      → All (λ e. P e.0 e.1) (insert k v m)
  unfolding insert
  All-insert P k v [] h p = (p, tt)
  All-insert P k v ((j, w) ∷ m) h p = ground (arith, All-insert P k v m h.1 p)

-- No key stands twice, as in a map.
abbrev pub Distinct {ℓ} : {V : Type ℓ} → Dict V → Type ℓ
Distinct [] = Unit
Distinct ((k, v) ∷ m) = (lookup k m ≡ none) × Distinct m

pub Distinct-insert {ℓ} :
    {V : Type ℓ} (k : String) (v : V) (m : Dict V) → Distinct m → Distinct (insert k v m)
unfolding lookup insert
Distinct-insert k v [] h = (refl, tt)
Distinct-insert k v ((j, w) ∷ m) h =
    ground (arith, eq_iff j k, eq_iff k j, lookup-insert k j v m, Distinct-insert k v m h.1)

pub ruleset dict_laws = (lookup-insert, lookup-remove)
