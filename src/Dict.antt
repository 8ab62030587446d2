-- ===== src/Dict.antt =====
-- Go's `map[K]V`: an association list in which an insertion replaces the entry of its key. The
-- order of the entries stands for the order in which Go happens to range over the map.
use razpravljalnica.Base.{
  ◌+◌, ◌≡◌, refl, Bool, Option, none, some, List, [], ◌∷◌, arith, Comparable, ◌==◌, if◌then◌else◌,
  is_some, length, ==-self, ◌<◌, ◌≤◌, map, option_map, ap, suc,
}

abbrev pub Dict {ℓ κ} : Type ℓ → Type κ → Type (ℓ ⊔ κ)
Dict K V = List (K × V)

module _ {ℓ κ} {K : Type ℓ} {V : Type κ} ⦃c : Comparable K⦄ where
  -- `value, ok := m[key]`
  unfoldable pub lookup : K → Dict K V → Option V
  lookup key [] = none
  lookup key ((k, value) ∷ rest) = if k == key then some value else lookup key rest

  -- `_, ok := m[key]`
  abbrev pub contains : K → Dict K V → Bool
  contains key m = is_some (lookup key m)

  -- `m[key] = value`
  unfoldable pub insert : K → V → Dict K V → Dict K V
  insert key value [] = (key, value) ∷ []
  insert key value ((k, old) ∷ rest) =
      if k == key then (key, value) ∷ rest else (k, old) ∷ insert key value rest

  -- `delete(m, key)`
  unfoldable pub erase : K → Dict K V → Dict K V
  erase key [] = []
  erase key ((k, old) ∷ rest) =
      let kept = erase key rest in if k == key then kept else (k, old) ∷ kept

  pub lookup-insert :
      (k j : K) (v : V) (m : Dict K V)
      → lookup j (insert k v m) ≡ (if k == j then some v else lookup j m)
  unfolding insert lookup
  lookup-insert k j v [] = refl
  lookup-insert k j v (x ∷ m) =
      ground (arith, lookup-insert k j v m, c.same_iff k j, c.same_iff x.0 k, c.same_iff x.0 j)

  pub lookup-insert_self : (k : K) (v : V) (m : Dict K V) → lookup k (insert k v m) ≡ some v
  lookup-insert_self k v m = rw (lookup-insert k k v m, ==-self k)

  pub lookup-erase :
      (k j : K) (m : Dict K V) → lookup j (erase k m) ≡ (if k == j then none else lookup j m)
  unfolding erase lookup
  lookup-erase k j [] = ground arith
  lookup-erase k j (x ∷ m) =
      ground (arith, lookup-erase k j m, c.same_iff k j, c.same_iff x.0 k, c.same_iff x.0 j)

  -- A new key adds one entry, an old one none.
  pub length-insert_new :
      (k : K) (v : V) (m : Dict K V) → lookup k m ≡ none → length (insert k v m) ≡ length m + 1
  unfolding lookup insert
  length-insert_new k v [] h = omega arith
  length-insert_new k v ((i, w) ∷ m) h = ground (arith, length-insert_new k v m)

  length-erase-le : (k : K) (m : Dict K V) → length (erase k m) ≤ length m
  unfolding erase
  length-erase-le k [] = omega arith
  length-erase-le k ((i, w) ∷ m) = ground (arith, length-erase-le k m)

  -- Erasing a key that is there makes the map smaller.
  pub length-erase-lt :
      (k : K) (v : V) (m : Dict K V) → lookup k m ≡ some v → length (erase k m) < length m
  unfolding lookup erase
  length-erase-lt k v [] h = cc
  length-erase-lt k v ((i, w) ∷ m) h = ground (arith, length-erase-le k m, length-erase-lt k v m)

-- A map with its values changed, in the same order.
abbrev pub map_values {ℓ κ μ} :
    {K : Type ℓ} {V : Type κ} {W : Type μ} → (V → W) → Dict K V → Dict K W
map_values f m = map (λ entry. (entry.0, f entry.1)) m

module _ {ℓ κ μ} {K : Type ℓ} {V : Type κ} {W : Type μ} ⦃c : Comparable K⦄ (f : V → W) where
  pub lookup-map_values :
      (k : K) (m : Dict K V) → lookup k (map_values f m) ≡ option_map f (lookup k m)
  unfolding lookup
  lookup-map_values k [] = refl
  lookup-map_values k ((i, w) ∷ m) = ground (arith, lookup-map_values k m)

  pub insert-map_values :
      (k : K) (v : V) (m : Dict K V) → map_values f (insert k v m) ≡ insert k (f v) (map_values f m)
  unfolding insert
  insert-map_values k v [] = refl
  insert-map_values k v ((i, w) ∷ m) = ground (arith, insert-map_values k v m)

  pub erase-map_values :
      (k : K) (m : Dict K V) → map_values f (erase k m) ≡ erase k (map_values f m)
  unfolding erase
  erase-map_values k [] = refl
  erase-map_values k ((i, w) ∷ m) = ground (arith, erase-map_values k m)

pub length-map_values {ℓ κ μ} :
    {K : Type ℓ} {V : Type κ} {W : Type μ} (f : V → W) (m : Dict K V)
    → length (map_values f m) ≡ length m
length-map_values f [] = refl
length-map_values f (x ∷ m) = ap suc (length-map_values f m)
