-- ===== src/Prelude/Dict.antt =====
-- Go maps as association lists. Keys are texts; a key that is set again keeps its place.
use Prim.Native.String.{String}
use mathlib.Core.Path.{◌≡◌, refl}
use mathlib.Core.List.{List, [], ◌∷◌}
use mathlib.Core.Option.{Option, none, some}
use native.Mathlib.Omega.{arith}
use polarisagi_harness.Prelude.Tests.{str_eq, str_eq_iff, if◌then◌else◌}

-- The value at a key, if it is set.
unfoldable pub lookup {ℓ} : {V : Type ℓ} → String → List (String × V) → Option V
lookup key [] = none
lookup key ((other, found) ∷ rest) = if str_eq other key then some found else lookup key rest

unfoldable pub insert {ℓ} : {V : Type ℓ} → String → V → List (String × V) → List (String × V)
insert key new [] = (key, new) ∷ []
insert key new ((other, old) ∷ rest) =
    let kept = insert key new rest in
    if str_eq other key then (key, new) ∷ rest else (other, old) ∷ kept

pub lookup-insert {ℓ} :
    {V : Type ℓ} (key at : String) (new : V) (dict : List (String × V))
    → lookup at (insert key new dict) ≡ (if str_eq key at then some new else lookup at dict)
unfolding lookup insert
lookup-insert key at new [] = refl
lookup-insert key at new ((other, old) ∷ rest) =
    let deeper = lookup-insert key at new rest in
    ground (arith, deeper, str_eq_iff other at, str_eq_iff key at, str_eq_iff other key)

-- A Go map that is read with its zero value is a function.
unfoldable pub update {ℓ} : {A : Type ℓ} → (String → A) → String → A → String → A
update f k v x = if str_eq k x then v else f x

pub update_lem {ℓ} :
    {A : Type ℓ} (f : String → A) (k : String) (v : A) (x : String)
    → update f k v x ≡ (if str_eq k x then v else f x)
unfolding update
update_lem f k v x = refl

-- Setting a key leaves the others, and finds the value.
pub lookup-insert-ne {ℓ} :
    {V : Type ℓ} (k j : String) (v : V) (m : List (String × V))
    → (k ≡ j → ⊥)
    → lookup j (insert k v m) ≡ lookup j m
lookup-insert-ne k j v m h = ground (arith, lookup-insert k j v m, str_eq_iff k j)

pub lookup-insert-eq {ℓ} :
    {V : Type ℓ} (k j : String) (v : V) (m : List (String × V))
    → k ≡ j
    → lookup j (insert k v m) ≡ some v
lookup-insert-eq k j v m h = ground (arith, lookup-insert k j v m, str_eq_iff k j)
