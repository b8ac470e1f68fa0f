-- ===== src/Assoc.antt =====
-- `HashMap` as an association list: one pair for each key; a write puts its pair in front.
use rcdesk.Common.{
  suc, ◌+◌, ◌≤◌, ◌≡◌, refl, ap, Bool, Option, none, some, List, [], ◌∷◌, arith, if◌then◌else◌,
  HasTest, ◌==◌, ==_iff, ==_self, is_some, length,
}
use mathlib.Core.Option

abbrev pub Assoc {ℓ κ} : Type ℓ → Type κ → Type (ℓ ⊔ κ)
Assoc K V = List (K × V)

module _ {ℓ κ} {K : Type ℓ} {V : Type κ} ⦃e : HasTest K⦄ where
  unfoldable pub get : K → Assoc K V → Option V
  get k [] = none
  get k ((j, v) ∷ m) = if j == k then some v else get k m

  unfoldable pub remove : K → Assoc K V → Assoc K V
  remove k [] = []
  remove k ((j, v) ∷ m) = let rest = remove k m in if j == k then rest else (j, v) ∷ rest

  unfoldable pub insert : K → V → Assoc K V → Assoc K V
  unfolding remove
  insert k v m = (k, v) ∷ remove k m

  unfoldable pub contains_key : K → Assoc K V → Bool
  unfolding get
  contains_key k m = is_some (get k m)

  -- A write through `get_mut`: nothing happens where the key is missing.
  unfoldable pub update : K → (V → V) → Assoc K V → Assoc K V
  update k f [] = []
  update k f ((j, v) ∷ m) = (j, if j == k then f v else v) ∷ update k f m

  unfoldable pub retain : (K → V → Bool) → Assoc K V → Assoc K V
  retain p [] = []
  retain p ((j, v) ∷ m) = let rest = retain p m in if p j v then (j, v) ∷ rest else rest

  unfoldable pub keys : Assoc K V → List K
  keys [] = []
  keys ((j, v) ∷ m) = j ∷ keys m

  -- One pair for each key.
  abbrev pub Unique : Assoc K V → Type (ℓ ⊔ κ)
  Unique [] = Unit
  Unique ((j, v) ∷ m) = (get j m ≡ none) × Unique m

  pub get-remove :
      (j k : K) (m : Assoc K V) → get j (remove k m) ≡ (if k == j then none else get j m)
  unfolding get remove
  get-remove j k [] = ground arith
  get-remove j k ((i, v) ∷ m) = ground (arith, get-remove j k m, ==_iff i j, ==_iff k j, ==_iff i k)

  pub get-insert :
      (j k : K) (v : V) (m : Assoc K V)
      → get j (insert k v m) ≡ (if k == j then some v else get j m)
  unfolding get insert
  get-insert j k v m = ground (arith, get-remove j k m)

  pub get-update :
      (j k : K) (f : V → V) (m : Assoc K V)
      → get j (update k f m) ≡ (if k == j then Option.map f (get j m) else get j m)
  unfolding get update
  get-update j k f [] = ground arith
  get-update j k f ((i, v) ∷ m) =
      ground (arith, get-update j k f m, ==_iff i j, ==_iff k j, ==_iff i k)

  pub get-insert_self : (k : K) (v : V) (m : Assoc K V) → get k (insert k v m) ≡ some v
  get-insert_self k v m = ground (arith, get-insert k k v m, ==_self k)

  pub get-remove_self : (k : K) (m : Assoc K V) → get k (remove k m) ≡ none
  get-remove_self k m = ground (arith, get-remove k k m, ==_self k)

  pub length-remove-le : (k : K) (m : Assoc K V) → length (remove k m) ≤ length m
  unfolding remove
  length-remove-le k [] = omega arith
  length-remove-le k ((i, v) ∷ m) = ground (arith, length-remove-le k m)

  pub length-insert-le : (k : K) (v : V) (m : Assoc K V) → length (insert k v m) ≤ length m + 1
  unfolding insert
  length-insert-le k v m = ground (arith, length-remove-le k m)

  pub length-update : (k : K) (f : V → V) (m : Assoc K V) → length (update k f m) ≡ length m
  unfolding update
  length-update k f [] = refl
  length-update k f ((i, v) ∷ m) = ap suc (length-update k f m)

  pub length-retain-le : (p : K → V → Bool) (m : Assoc K V) → length (retain p m) ≤ length m
  unfolding retain
  length-retain-le p [] = omega arith
  length-retain-le p ((i, v) ∷ m) = ground (arith, length-retain-le p m)

  pub remove-Unique : (k : K) (m : Assoc K V) → Unique m → Unique (remove k m)
  unfolding remove
  remove-Unique k [] u = tt
  remove-Unique k ((i, v) ∷ m) u = ground (arith, remove-Unique k m u.1, get-remove i k m)

  pub insert-Unique : (k : K) (v : V) (m : Assoc K V) → Unique m → Unique (insert k v m)
  unfolding insert
  insert-Unique k v m u = (get-remove_self k m, remove-Unique k m u)

  pub update-Unique : (k : K) (f : V → V) (m : Assoc K V) → Unique m → Unique (update k f m)
  unfolding update
  update-Unique k f [] u = tt
  update-Unique k f ((i, v) ∷ m) u = ground (arith, update-Unique k f m u.1, get-update i k f m)

  get-retain-none :
      (p : K → V → Bool) (k : K) (m : Assoc K V) → get k m ≡ none → get k (retain p m) ≡ none
  unfolding get retain
  get-retain-none p k [] h = refl
  get-retain-none p k ((i, v) ∷ m) h = ground (arith, get-retain-none p k m)

  pub retain-Unique : (p : K → V → Bool) (m : Assoc K V) → Unique m → Unique (retain p m)
  unfolding retain
  retain-Unique p [] u = tt
  retain-Unique p ((i, v) ∷ m) u = ground (arith, retain-Unique p m u.1, get-retain-none p i m u.0)

  -- What `retain` leaves of a value.
  abbrev pub kept : (K → V → Bool) → K → Option V → Option V
  kept p k none = none
  kept p k (some v) = if p k v then some v else none

  pub get-retain :
      (p : K → V → Bool) (k : K) (m : Assoc K V)
      → Unique m
      → get k (retain p m) ≡ kept p k (get k m)
  unfolding get retain
  get-retain p k [] u = refl
  get-retain p k ((i, v) ∷ m) u =
      ground (arith, ==_iff i k, get-retain p k m u.1, get-retain-none p i m u.0, u.0)
