-- ===== src/Common/BTreeMap.antt =====
-- `std::collections::{BTreeMap, BTreeSet}` as the code uses them: an association list in the order
-- of its keys. The laws below hold of every list, so proofs carry no proof of its order.
use Prim.Native.Nat.{ℕ}
use mathlib.Core.Path.{◌≡◌, refl}
use mathlib.Core.Logic.{◌↔◌}
use mathlib.Core.Bool.{Bool, true, false, ◌&&◌, ◌||◌}
use mathlib.Core.Option.{Option, none, some}
use mathlib.Core.List.{List, [], ◌∷◌}
use native.Mathlib.Omega.{arith}
use signal_fish_client_rust.Common.Tests.{ltb, ◌==◌, ==_iff, if◌then◌else◌, is_some}

-- A totally ordered key, as Rust's `Ord`.
pub record Key {ℓ} (K : Type ℓ) : Type ℓ where
  pub eq : K → K → Bool
  pub lt : K → K → Bool
  pub eq_iff : (a b : K) → (eq a b ≡ true) ↔ (a ≡ b)

instance abbrev pub nat_key : Key ℕ
nat_key = record { eq = ◌==◌; lt = ltb; eq_iff = ==_iff }

abbrev pub pair_eq : ℕ × ℕ → ℕ × ℕ → Bool
pair_eq x y = x.0 == y.0 && x.1 == y.1

pub pair_eq_iff : (x y : ℕ × ℕ) → (pair_eq x y ≡ true) ↔ (x ≡ y)
pair_eq_iff x y = (λ h. ground arith, λ h. ground arith)

-- A tuple key compares lexicographically.
instance abbrev pub pair_key : Key (ℕ × ℕ)
pair_key = record {
  eq = pair_eq;
  lt = λ x y. ltb x.0 y.0 || (x.0 == y.0 && ltb x.1 y.1);
  eq_iff = pair_eq_iff;
}

abbrev pub BTreeMap {ℓ κ} : Type ℓ → Type κ → Type (ℓ ⊔ κ)
BTreeMap K V = List (K × V)

abbrev pub BTreeSet {ℓ} : Type ℓ → Type ℓ
BTreeSet K = BTreeMap K (Unit {0})

module _ {ℓ κ} {K : Type ℓ} {V : Type κ} where
  abbrev pub any_key : (K → Bool) → BTreeMap K V → Bool
  any_key p [] = false
  any_key p ((k, v) ∷ m) = p k || any_key p m

  -- The keys in their order.
  abbrev pub keys : BTreeMap K V → List K
  keys [] = []
  keys ((k, v) ∷ m) = k ∷ keys m

  unfoldable pub last_key : BTreeMap K V → Option K
  last_key [] = none
  last_key ((k, v) ∷ []) = some k
  last_key ((k, v) ∷ (l, w) ∷ m) = last_key ((l, w) ∷ m)

module _ {ℓ κ} {K : Type ℓ} {V : Type κ} ⦃o : Key K⦄ where
  unfoldable pub get : K → BTreeMap K V → Option V
  get k [] = none
  get k ((j, v) ∷ m) = if o.eq j k then some v else get k m

  unfoldable pub insert : K → V → BTreeMap K V → BTreeMap K V
  insert k v [] = (k, v) ∷ []
  insert k v ((j, w) ∷ m) =
      if o.eq j k
      then (k, v) ∷ m
      else if o.lt k j
      then (k, v) ∷ (j, w) ∷ m
      else (j, w) ∷ insert k v m

  -- `retain` by a test of the key.
  unfoldable pub retain_keys : (K → Bool) → BTreeMap K V → BTreeMap K V
  retain_keys p [] = []
  retain_keys p ((j, v) ∷ m) = let rest = retain_keys p m in if p j then (j, v) ∷ rest else rest

  unfoldable pub remove : K → BTreeMap K V → BTreeMap K V
  unfolding retain_keys
  remove k = retain_keys (λ j. if o.eq j k then false else true)

  abbrev pub contains_key : K → BTreeMap K V → Bool
  contains_key k m = is_some (get k m)

  pub get-insert :
      (k j : K) (v : V) (m : BTreeMap K V)
      → get j (insert k v m) ≡ (if o.eq k j then some v else get j m)
  unfolding get insert
  get-insert k j v [] = refl
  get-insert k j v ((i, w) ∷ m) =
      ground (arith, o.eq_iff i k, o.eq_iff i j, o.eq_iff k j, get-insert k j v m)

  pub get-retain_keys :
      (p : K → Bool) (j : K) (m : BTreeMap K V)
      → get j (retain_keys p m) ≡ (if p j then get j m else none)
  unfolding get retain_keys
  get-retain_keys p j [] = ground arith
  get-retain_keys p j ((i, w) ∷ m) = ground (arith, o.eq_iff i j, get-retain_keys p j m)

  pub get-remove :
      (k j : K) (m : BTreeMap K V) → get j (remove k m) ≡ (if o.eq j k then none else get j m)
  unfolding remove
  get-remove k j m = ground (arith, get-retain_keys (λ j. if o.eq j k then false else true) j m)

  -- A key with a value makes a test of the keys succeed.
  pub any_key-get :
      (p : K → Bool) (j : K) (m : BTreeMap K V) {v : V}
      → get j m ≡ some v
      → p j ≡ true
      → any_key p m ≡ true
  unfolding get
  any_key-get p j [] e h = cc
  any_key-get p j ((i, w) ∷ m) {v} e h = ground (arith, o.eq_iff i j, any_key-get p j m {v = v})
