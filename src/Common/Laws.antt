-- ===== src/Common/Laws.antt =====
-- Laws of the maps and sets of Common/Assoc.
use Prim.Native.Nat.{suc}
use mathlib.Core.Path.{◌≡◌, refl, ap}
use mathlib.Core.Bool.{true, false, ◌||◌}
use mathlib.Core.Option
use mathlib.Core.Option.{Option, none, some}
use mathlib.Core.List.{List, [], ◌∷◌, ◌++◌}
use native.Mathlib.Omega.{arith}
use pccl.Common.Tests.{if◌then◌else◌, Eq, ◌==◌}
use pccl.Common.Lists.{length}
use pccl.Common.Assoc.{
  lookup, contains, get_or, insert, modify, erase, Unique, map_values, values, has, add, remove,
}

module _ {ℓ κ} {K : Type ℓ} {V : Type κ} ⦃e : Eq K⦄ where
  pub lookup-insert :
      (k j : K) (v : V) (m : List (K × V))
      → lookup j (insert k v m) ≡ (if k == j then some v else lookup j m)
  lookup-insert k j v [] = refl
  lookup-insert k j v ((i, w) ∷ m) =
      ground (arith, e.decides k j, e.decides i k, e.decides i j, lookup-insert k j v m)

  pub get_or-insert :
      (d : V) (k j : K) (v : V) (m : List (K × V))
      → get_or d j (insert k v m) ≡ (if k == j then v else get_or d j m)
  get_or-insert d k j v [] = refl
  get_or-insert d k j v ((i, w) ∷ m) =
      ground (arith, e.decides k j, e.decides i k, e.decides i j, get_or-insert d k j v m)

  pub get_or-lookup :
      (d : V) (k : K) (m : List (K × V))
      → get_or d k m ≡ elim (lookup k m) [ none ↦ d | some v ↦ v ]
  get_or-lookup d k [] = refl
  get_or-lookup d k ((j, v) ∷ m) = ground (arith, get_or-lookup d k m)

  pub lookup-modify :
      (k j : K) (f : V → V) (m : List (K × V))
      → lookup j (modify k f m) ≡ (if k == j then Option.map f (lookup j m) else lookup j m)
  lookup-modify k j f [] = ground arith
  lookup-modify k j f ((i, w) ∷ m) =
      ground (arith, e.decides k j, e.decides i k, e.decides i j, lookup-modify k j f m)

  pub lookup-contains : (k : K) (m : List (K × V)) → contains k m ≡ false → lookup k m ≡ none
  lookup-contains k [] h = refl
  lookup-contains k ((i, w) ∷ m) h = ground (arith, lookup-contains k m)

  pub contains-some : (k : K) (v : V) (m : List (K × V)) → lookup k m ≡ some v → contains k m ≡ true
  contains-some k v [] h = cc
  contains-some k v ((i, w) ∷ m) h = ground (arith, contains-some k v m)

  pub contains-lookup : (k : K) (m : List (K × V)) → lookup k m ≡ none → contains k m ≡ false
  contains-lookup k [] h = refl
  contains-lookup k ((i, w) ∷ m) h = ground (arith, contains-lookup k m)

  pub lookup-erase :
      (k j : K) (m : List (K × V))
      → Unique m
      → lookup j (erase k m) ≡ (if k == j then none else lookup j m)
  lookup-erase k j [] u = ground arith
  lookup-erase k j ((i, w) ∷ m) u = ground (
    arith,
    e.decides k j,
    e.decides i k,
    e.decides i j,
    lookup-erase k j m u.1,
    lookup-contains i m u.0,
  )

  pub contains-insert :
      (k j : K) (v : V) (m : List (K × V))
      → contains j (insert k v m) ≡ (if k == j then true else contains j m)
  contains-insert k j v [] = refl
  contains-insert k j v ((i, w) ∷ m) =
      ground (arith, e.decides k j, e.decides i k, e.decides i j, contains-insert k j v m)

  pub contains-modify :
      (k j : K) (f : V → V) (m : List (K × V)) → contains j (modify k f m) ≡ contains j m
  contains-modify k j f [] = refl
  contains-modify k j f ((i, w) ∷ m) = ground (arith, contains-modify k j f m)

  pub contains-erase_other :
      (k j : K) (m : List (K × V)) → contains j m ≡ false → contains j (erase k m) ≡ false
  contains-erase_other k j [] h = refl
  contains-erase_other k j ((i, w) ∷ m) h = ground (arith, contains-erase_other k j m)

  pub insert-Unique : (k : K) (v : V) (m : List (K × V)) → Unique m → Unique (insert k v m)
  insert-Unique k v [] u = (refl, tt)
  insert-Unique k v ((i, w) ∷ m) u =
      ground (arith, e.decides i k, e.decides k i, insert-Unique k v m u.1, contains-insert k i v m)

  pub modify-Unique : (k : K) (f : V → V) (m : List (K × V)) → Unique m → Unique (modify k f m)
  modify-Unique k f [] u = tt
  modify-Unique k f ((i, w) ∷ m) u =
      ground (arith, modify-Unique k f m u.1, contains-modify k i f m)

  pub erase-Unique : (k : K) (m : List (K × V)) → Unique m → Unique (erase k m)
  erase-Unique k [] u = tt
  erase-Unique k ((i, w) ∷ m) u =
      ground (arith, erase-Unique k m u.1, contains-erase_other k i m u.0)

  pub length-insert_new :
      (k : K) (v : V) (m : List (K × V))
      → contains k m ≡ false
      → length (insert k v m) ≡ suc (length m)
  length-insert_new k v [] h = refl
  length-insert_new k v ((i, w) ∷ m) h = ground (arith, length-insert_new k v m)

  pub length-insert_old :
      (k : K) (v : V) (m : List (K × V)) → contains k m ≡ true → length (insert k v m) ≡ length m
  length-insert_old k v [] h = cc
  length-insert_old k v ((i, w) ∷ m) h = ground (arith, length-insert_old k v m)

  pub length-modify : (k : K) (f : V → V) (m : List (K × V)) → length (modify k f m) ≡ length m
  length-modify k f [] = refl
  length-modify k f ((i, w) ∷ m) = ground (arith, length-modify k f m)

  pub length-erase :
      (k : K) (m : List (K × V)) → contains k m ≡ true → suc (length (erase k m)) ≡ length m
  length-erase k [] h = cc
  length-erase k ((i, w) ∷ m) h = ground (arith, length-erase k m)

  pub lookup-map_values :
      (k : K) (f : V → V) (m : List (K × V)) → lookup k (map_values f m) ≡ Option.map f (lookup k m)
  lookup-map_values k f [] = refl
  lookup-map_values k f ((i, w) ∷ m) = ground (arith, lookup-map_values k f m)

  pub contains-map_values :
      (k : K) (f : V → V) (m : List (K × V)) → contains k (map_values f m) ≡ contains k m
  contains-map_values k f [] = refl
  contains-map_values k f ((i, w) ∷ m) = ground (arith, contains-map_values k f m)

  pub map_values-Unique : (f : V → V) (m : List (K × V)) → Unique m → Unique (map_values f m)
  map_values-Unique f [] u = tt
  map_values-Unique f ((i, w) ∷ m) u =
      ground (arith, map_values-Unique f m u.1, contains-map_values i f m)

module _ {ℓ κ} {K : Type ℓ} {V : Type κ} where
  pub length-values : (m : List (K × V)) → length (values m) ≡ length m
  length-values [] = refl
  length-values ((i, w) ∷ m) = ap suc (length-values m)

  pub length-map_values : (f : V → V) (m : List (K × V)) → length (map_values f m) ≡ length m
  length-map_values f [] = refl
  length-map_values f ((i, w) ∷ m) = ap suc (length-map_values f m)

module _ {ℓ} {K : Type ℓ} ⦃e : Eq K⦄ where
  pub has-append : (k : K) (xs ys : List K) → has k (xs ++ ys) ≡ (has k xs || has k ys)
  has-append k [] ys = refl
  has-append k (x ∷ xs) ys = ground (arith, has-append k xs ys)

  pub has-add : (k j : K) (xs : List K) → has j (add k xs) ≡ (if k == j then true else has j xs)
  has-add k j xs = ground (arith, e.decides k j, has-append j xs (k ∷ []), e.decides j k)

  pub has-remove :
      (k j : K) (xs : List K) → has j (remove k xs) ≡ (if k == j then false else has j xs)
  has-remove k j [] = ground arith
  has-remove k j (x ∷ xs) =
      ground (arith, e.decides k j, e.decides x k, e.decides x j, has-remove k j xs)
