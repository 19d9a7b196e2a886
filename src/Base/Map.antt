-- ===== src/Base/Map.antt =====
-- JavaScript's `Map` with text keys: an association list in insertion order. Setting a key that is
-- there keeps its place.
use saku.Base.Tests.{if◌then◌else◌, is_some, Bool-cases}
use Prim.Native.String.{String}
use mathlib.Core.Path.{◌≡◌, refl}
use mathlib.Core.Logic.{◌⊎◌, inl, inr}
use mathlib.Core.Bool.{Bool, true}
use mathlib.Core.Option.{Option, none, some}
use mathlib.Core.List.{List, [], ◌∷◌}
use native.Mathlib.Omega.{arith}
use text.Mathlib.Text.{◌==◌ as str_eq}
use text.Mathlib.TextEquality.{eq_iff}

abbrev pub Map {ℓ} : Type ℓ → Type ℓ
Map V = List (String × V)

module _ {ℓ} {V : Type ℓ} where
  unfoldable pub get : String → Map V → Option V
  get k [] = none
  get k ((j, v) ∷ m) = if str_eq j k then some v else get k m

  unfoldable pub put : String → V → Map V → Map V
  put k v [] = (k, v) ∷ []
  put k v ((j, w) ∷ m) = if str_eq j k then (k, v) ∷ m else (j, w) ∷ put k v m

  -- `Map.prototype.delete`
  unfoldable pub remove : String → Map V → Map V
  remove k [] = []
  remove k ((j, w) ∷ m) = let rest = remove k m in if str_eq j k then rest else (j, w) ∷ rest

  abbrev pub has : String → Map V → Bool
  has k m = is_some (get k m)

  abbrev pub keys : Map V → List String
  keys [] = []
  keys ((k, v) ∷ m) = k ∷ keys m

  abbrev pub values : Map V → List V
  values [] = []
  values ((k, v) ∷ m) = v ∷ values m

  pub get-put :
      (k j : String) (v : V) (m : Map V)
      → get j (put k v m) ≡ (if str_eq k j then some v else get j m)
  unfolding get put
  get-put k j v [] = refl
  get-put k j v ((i, w) ∷ m) = ground (arith, eq_iff k j, eq_iff i k, eq_iff i j, get-put k j v m)

  pub get-remove :
      (k j : String) (m : Map V) → get j (remove k m) ≡ (if str_eq k j then none else get j m)
  unfolding get remove
  get-remove k j [] = ground arith
  get-remove k j ((i, w) ∷ m) = ground (arith, eq_iff k j, eq_iff i k, eq_iff i j, get-remove k j m)

  -- What a read after a write returns.
  pub get-put_cases :
      (k j : String) (v : V) (m : Map V) {w : V}
      → get j (put k v m) ≡ some w
      → ((k ≡ j) × (v ≡ w)) ⊎ (get j m ≡ some w)
  get-put_cases k j v m h = ground (arith, get-put k j v m, eq_iff k j)

  pub get-remove-some :
      (k j : String) (m : Map V) {w : V} → get j (remove k m) ≡ some w → get j m ≡ some w
  get-remove-some k j m h = ground (arith, get-remove k j m)

  -- A write keeps every key.
  pub has-put : (k j : String) (v : V) (m : Map V) → has j m ≡ true → has j (put k v m) ≡ true
  has-put k j v m h = ground (arith, get-put k j v m)

  pub has-put_self : (k : String) (v : V) (m : Map V) → has k (put k v m) ≡ true
  has-put_self k v m = ground (arith, get-put k k v m, eq_iff k k)

  -- A write of a new key loses nothing.
  pub get-put_fresh :
      (k j : String) (v : V) (m : Map V) {w : V}
      → get k m ≡ none
      → get j m ≡ some w
      → get j (put k v m) ≡ some w
  get-put_fresh k j v m f h = elim (Bool-cases (str_eq k j)) [
    | inl same ↦ ground (arith, eq_iff k j)
    | inr other ↦ rw (get-put k j v m, other) h
  ]

  pub get-put_self : (k : String) (v : V) (m : Map V) → get k (put k v m) ≡ some v
  get-put_self k v m = ground (arith, get-put k k v m, eq_iff k k)
