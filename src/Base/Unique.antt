-- ===== src/Base/Unique.antt =====
-- Maps in which no key stands twice, and predicates of all pairs of a map.
use saku.Base.{
  String, Bool, true, false, none, some, [], ◌∷◌, ◌≡◌, refl, sym, ap, ◌∙◌, subst, inl, inr,
  Bool-cases, arith, if◌then◌else◌, str_eq, eq_iff, String, All,
}
use saku.Base.Map.{Map, get, put, remove, get-put, get-remove}

-- No key stands twice in a map.
abbrev pub IsMap {ℓ} : {V : Type ℓ} → Map V → Type ℓ
IsMap [] = Unit
IsMap ((k, v) ∷ m) = (get k m ≡ none) × IsMap m

differ : (k j : String) → str_eq k j ≡ false → str_eq j k ≡ false
differ k j other = elim (Bool-cases (str_eq j k)) [
  | inl same ↦ ground (arith, eq_iff k j, eq_iff j k)
  | inr apart ↦ apart
]

module _ {ℓ} {V : Type ℓ} where
  pub get-put_key :
      (k k' j : String) (v : V) (m : Map V)
      → k' ≡ k
      → get j (put k' v m) ≡ (if str_eq k j then some v else get j m)
  get-put_key k k' j v m same = rw (same) (get-put k j v m)

  pub put-put_same :
      (k k' j : String) (v : V) (m m' : Map V)
      → k' ≡ k
      → get j m ≡ get j m'
      → get j (put k' v m) ≡ get j (put k v m')
  put-put_same k k' j v m m' same_key same =
      rw (get-put k' j v m, get-put k j v m', same_key, same) refl

  pub get-tail :
      (k j : String) (v w : V) (m : Map V)
      → get k m ≡ none
      → get j m ≡ some w
      → get j ((k, v) ∷ m) ≡ some w
  unfolding get
  get-tail k j v w m absent found = elim (Bool-cases (str_eq k j)) [
    | inl same ↦ cc (sym absent ∙ ap (λ x. get x m) ((eq_iff k j).0 same) ∙ found)
    | inr other ↦ rw (other, found) refl
  ]

  pub get-head : (k : String) (v : V) (m : Map V) → get k ((k, v) ∷ m) ≡ some v
  unfolding get
  get-head k v m = rw ((eq_iff k k).1 refl) refl

  pub put-IsMap : (k : String) (v : V) (m : Map V) → IsMap m → IsMap (put k v m)
  unfolding put get
  put-IsMap k v [] _ = (refl, tt)
  put-IsMap k v ((j, w) ∷ m) (absent, rest) = at (str_eq j k) refl (put-IsMap k v m rest)
    where
      at :
          (b : Bool)
          → str_eq j k ≡ b
          → IsMap (put k v m)
          → IsMap (if b then (k, v) ∷ m else (j, w) ∷ put k v m)
      at true same _ = (subst (λ x. get x m ≡ none) ((eq_iff j k).0 same) absent, rest)
      at false other there = (rw (get-put k j v m, differ j k other) absent, there)

  pub get-remove-none : (k j : String) (m : Map V) → get j m ≡ none → get j (remove k m) ≡ none
  get-remove-none k j m absent = elim (Bool-cases (str_eq k j)) [
    | inl same ↦ rw (get-remove k j m, same) refl
    | inr other ↦ rw (get-remove k j m, other) absent
  ]

  pub remove-IsMap : (k : String) (m : Map V) → IsMap m → IsMap (remove k m)
  unfolding remove
  remove-IsMap k [] _ = tt
  remove-IsMap k ((j, w) ∷ m) (absent, rest) = at (str_eq j k) (remove-IsMap k m rest)
    where
      at : (b : Bool) → IsMap (remove k m) → IsMap (if b then remove k m else (j, w) ∷ remove k m)
      at true there = there
      at false there = (get-remove-none k j m absent, there)

  pub get-remove_self : (k : String) (m : Map V) → get k (remove k m) ≡ none
  get-remove_self k m = rw (get-remove k k m, (eq_iff k k).1 refl) refl

-- A write keeps what holds of every pair, if it holds of the new one.
pub All-put {ℓ κ} :
    {V : Type ℓ} (P : String × V → Type κ) (k : String) (v : V) (m : Map V)
    → All P m
    → P (k, v)
    → All P (put k v m)
unfolding put
All-put P k v [] h p = (p, tt)
All-put P k v ((j, w) ∷ m) (q, h) p = at (str_eq j k) (All-put P k v m h p)
  where
    at : (b : Bool) → All P (put k v m) → All P (if b then (k, v) ∷ m else (j, w) ∷ put k v m)
    at true _ = (p, h)
    at false rest = (q, rest)

pub get-All {ℓ κ} :
    {V : Type ℓ} (P : String × V → Type κ) (k : String) (m : Map V) {v : V}
    → All P m
    → get k m ≡ some v
    → P (k, v)
unfolding get
get-All P k [] h found = cc
get-All P k ((j, w) ∷ m) {v} (p, h) found =
    at (str_eq j k) refl found (λ there. get-All P k m h there)
  where
    at :
        (b : Bool)
        → str_eq j k ≡ b
        → (if b then some w else get k m) ≡ some v
        → (get k m ≡ some v → P (k, v))
        → P (k, v)
    at true same there rest =
        subst (λ x. P (k, x)) (some_injective there) (subst (λ i. P (i, w)) ((eq_iff j k).0 same) p)
      where
        some_injective : {A : Type ℓ} {x y : A} → some x ≡ some y → x ≡ y
        some_injective e = cc
    at false _ there rest = rest there
