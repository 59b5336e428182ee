-- ===== src/Prelude/Assoc.antt =====
-- Go maps with string keys. A map is a list of entries: their order stands for one order in which
-- `range` may visit the map, so a statement for every map holds for every order.
use Prim.Native.Nat.{suc, ◌≤◌}
use mathlib.Core.List.{List, [], ◌∷◌}
use mathlib.Core.Option.{Option, none, some}
use mathlib.Core.Path.{◌≡◌, refl}
use native.Mathlib.Omega.{arith}
use vantage_core.Prelude.Tests.{if◌then◌else◌, is_some}
use vantage_core.Prelude.Lists.{length}
use vantage_core.Prelude.Text.{Str, ◌==◌, ==_iff}

abbrev pub Map {ℓ} : Type ℓ → Type ℓ
Map V = List (Str × V)

module _ {ℓ} {V : Type ℓ} where
  -- `m[k]`, with `none` for a missing key
  unfoldable pub get : Map V → Str → Option V
  get [] k = none
  get ((j, v) ∷ m) k = if j == k then some v else get m k

  -- `m[k] = v`
  unfoldable pub put : Map V → Str → V → Map V
  put [] k v = (k, v) ∷ []
  put ((j, w) ∷ m) k v = if j == k then (k, v) ∷ m else (j, w) ∷ put m k v

  -- `delete(m, k)`
  unfoldable pub del : Map V → Str → Map V
  del [] k = []
  del ((j, v) ∷ m) k = let rest = del m k in if j == k then rest else (j, v) ∷ rest

  pub get-put :
      (m : Map V) (k j : Str) (v : V) → get (put m k v) j ≡ (if k == j then some v else get m j)
  unfolding get put
  get-put [] k j v = refl
  get-put ((i, w) ∷ m) k j v = ground (arith, ==_iff k j, ==_iff i k, ==_iff i j, get-put m k j v)

  pub get-del : (m : Map V) (k j : Str) → get (del m k) j ≡ (if k == j then none else get m j)
  unfolding get del
  get-del [] k j = ground arith
  get-del ((i, w) ∷ m) k j = ground (arith, ==_iff k j, ==_iff i k, ==_iff i j, get-del m k j)

  -- A key that is there is overwritten in place; a new key adds one entry.
  pub length-put :
      (m : Map V) (k : Str) (v : V)
      → length (put m k v) ≡ (if is_some (get m k) then length m else suc (length m))
  unfolding get put
  length-put [] k v = refl
  length-put ((i, w) ∷ m) k v = ground (arith, length-put m k v)

  pub length-del-le : (m : Map V) (k : Str) → length (del m k) ≤ length m
  unfolding del
  length-del-le [] k = omega arith
  length-del-le ((i, w) ∷ m) k = ground (arith, length-del-le m k)

-- A map of maps' keys are distinct: no key of the tail is the key of the head.
abbrev pub Distinct {ℓ} : {V : Type ℓ} → Map V → Type ℓ
Distinct [] = Unit
Distinct ((k, v) ∷ m) = (get m k ≡ none) × Distinct m

module _ {ℓ} {V : Type ℓ} where
  pub put-Distinct : (m : Map V) (k : Str) (v : V) → Distinct m → Distinct (put m k v)
  unfolding get put
  put-Distinct [] k v h = (refl, tt)
  put-Distinct ((i, w) ∷ m) k v (h, hs) =
      ground (arith, ==_iff i k, ==_iff k i, get-put m k i v, put-Distinct m k v hs)

  pub del-Distinct : (m : Map V) (k : Str) → Distinct m → Distinct (del m k)
  unfolding get del
  del-Distinct [] k h = tt
  del-Distinct ((i, w) ∷ m) k (h, hs) = ground (arith, get-del m k i, del-Distinct m k hs)

  -- With distinct keys, a deletion takes out exactly one entry of a key that is there.
  del_absent : (m : Map V) (k : Str) → get m k ≡ none → length (del m k) ≡ length m
  unfolding get del
  del_absent [] k h = refl
  del_absent ((i, w) ∷ m) k h = ground (arith, del_absent m k)

  pub length-del :
      (m : Map V) (k : Str)
      → Distinct m
      → (if is_some (get m k) then suc (length (del m k)) else length (del m k)) ≡ length m
  unfolding get del
  length-del [] k h = refl
  length-del ((i, w) ∷ m) k (h, hs) = ground (arith, ==_iff i k, del_absent m k, length-del m k hs)

pub ruleset map_laws = (get-put, get-del)

-- Writing the value that is there changes nothing.
pub put_self {ℓ} : {V : Type ℓ} (m : Map V) (k : Str) (v : V) → get m k ≡ some v → put m k v ≡ m
unfolding get put
put_self [] k v h = cc
put_self ((j, w) ∷ m) k v h = ground (arith, ==_iff j k, put_self m k v)
