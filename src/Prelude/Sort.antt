-- ===== src/Prelude/Sort.antt =====
-- `Array.prototype.sort`, which is stable: an insertion sort by a Boolean "not after".
use Prim.Native.Nat.{ℕ, zero, suc}
use mathlib.Core.Path.{◌≡◌, refl, sym}
use mathlib.Core.Logic.{inl, inr}
use mathlib.Core.Bool.{Bool, true, false, ◌||◌}
use mathlib.Core.List.{List, [], ◌∷◌, ◌++◌, Perm}
use mathlib.Core.List.Perm
use native.Mathlib.Omega.{arith}
use spectrum_knx.Prelude.Tests.{if◌then◌else◌, Bool-cases}
use spectrum_knx.Prelude.Lists.{All, All-append, All-filter, any, length, drop, filter}

-- the relation holds of each element and each later one
abbrev pub Pairwise {ℓ κ} : {A : Type ℓ} → (A → A → Type κ) → List A → Type κ
Pairwise R [] = Unit
Pairwise R (x ∷ xs) = All (R x) xs × Pairwise R xs

module _ {ℓ κ} {A : Type ℓ} (R : A → A → Type κ) where
  pub Pairwise-append :
      (xs ys : List A)
      → Pairwise R xs
      → Pairwise R ys
      → All (λ x. All (R x) ys) xs
      → Pairwise R (xs ++ ys)
  Pairwise-append [] ys hx hy h = hy
  Pairwise-append (x ∷ xs) ys hx hy h =
      (All-append (R x) xs ys hx.0 h.0, Pairwise-append xs ys hx.1 hy h.1)

  pub Pairwise-suffix : (xs ys : List A) → Pairwise R (xs ++ ys) → Pairwise R ys
  Pairwise-suffix [] ys h = h
  Pairwise-suffix (x ∷ xs) ys h = Pairwise-suffix xs ys h.1

  pub Pairwise-drop : (n : ℕ) (xs : List A) → Pairwise R xs → Pairwise R (drop n xs)
  Pairwise-drop zero xs h = h
  Pairwise-drop (suc n) [] h = h
  Pairwise-drop (suc n) (x ∷ xs) h = Pairwise-drop n xs h.1

  pub Pairwise-filter : (p : A → Bool) (xs : List A) → Pairwise R xs → Pairwise R (filter p xs)
  Pairwise-filter p [] h = tt
  Pairwise-filter p (x ∷ xs) h = elim (Bool-cases (p x)) [
    | inl e ↦ rw e (All-filter (R x) p xs h.0, Pairwise-filter p xs h.1)
    | inr e ↦ rw e (Pairwise-filter p xs h.1)
  ]

module _ {ℓ} {A : Type ℓ} (le : A → A → Bool) where
  unfoldable pub insert : A → List A → List A
  insert x [] = x ∷ []
  insert x (y ∷ ys) = if le x y then x ∷ y ∷ ys else y ∷ insert x ys

  unfoldable pub sort : List A → List A
  unfolding insert
  sort [] = []
  sort (x ∷ xs) = insert x (sort xs)

  -- each element is not after any later one
  abbrev pub IsOrdered : List A → Type 0
  IsOrdered = Pairwise (λ x y. le x y ≡ true)

-- what a comparator has to be, for `sort` to sort
pub record IsOrder {ℓ} {A : Type ℓ} (le : A → A → Bool) : Type ℓ where
  pub total : (x y : A) → le x y ≡ false → le y x ≡ true
  pub trans : (x y z : A) → le x y ≡ true → le y z ≡ true → le x z ≡ true

module _ {ℓ} {A : Type ℓ} (le : A → A → Bool) where
  pub insert-perm : (x : A) (xs : List A) → Perm (insert le x xs) (x ∷ xs)
  unfolding insert
  insert-perm x [] = Perm.refl _
  insert-perm x (y ∷ ys) = elim (Bool-cases (le x y)) [
    | inl e ↦ rw e (Perm.refl _)
    | inr e ↦ rw e (Perm.trans (Perm.cons y (insert-perm x ys)) (Perm.swap x y ys))
  ]

  pub sort-perm : (xs : List A) → Perm (sort le xs) xs
  unfolding sort
  sort-perm [] = Perm.refl _
  sort-perm (x ∷ xs) = Perm.trans (insert-perm x (sort le xs)) (Perm.cons x (sort-perm xs))

  -- what holds of every element holds of every element of the sorted list
  module _ {κ} (P : A → Type κ) where
    All-insert : (x : A) (xs : List A) → P x → All P xs → All P (insert le x xs)
    unfolding insert
    All-insert x [] px h = (px, h)
    All-insert x (y ∷ ys) px h = elim (Bool-cases (le x y)) [
      | inl e ↦ rw e (px, h)
      | inr e ↦ rw e (h.0, All-insert x ys px h.1)
    ]

    pub All-sort : (xs : List A) → All P xs → All P (sort le xs)
    unfolding sort
    All-sort [] h = h
    All-sort (x ∷ xs) h = All-insert x (sort le xs) h.0 (All-sort xs h.1)

  pub length-insert : (x : A) (xs : List A) → length (insert le x xs) ≡ suc (length xs)
  unfolding insert
  length-insert x [] = refl
  length-insert x (y ∷ ys) = ground (arith, length-insert x ys)

  pub length-sort : (xs : List A) → length (sort le xs) ≡ length xs
  unfolding sort
  length-sort [] = refl
  length-sort (x ∷ xs) = omega (arith, length-insert x (sort le xs), length-sort xs)

  -- sorting changes no test for "some element"
  any-insert : (p : A → Bool) (x : A) (xs : List A) → any p (insert le x xs) ≡ (p x || any p xs)
  unfolding insert
  any-insert p x [] = refl
  any-insert p x (y ∷ ys) = ground (arith, any-insert p x ys)

  pub any-sort : (p : A → Bool) (xs : List A) → any p (sort le xs) ≡ any p xs
  unfolding sort
  any-sort p [] = refl
  any-sort p (x ∷ xs) = ground (arith, any-insert p x (sort le xs), any-sort p xs)

  -- a list in order is left alone
  pub insert_first : (x : A) (xs : List A) → All (λ y. le x y ≡ true) xs → insert le x xs ≡ x ∷ xs
  unfolding insert
  insert_first x [] h = refl
  insert_first x (y ∷ ys) h = rw h.0

  pub sort_of_IsOrdered : (xs : List A) → IsOrdered le xs → sort le xs ≡ xs
  unfolding sort
  sort_of_IsOrdered [] h = refl
  sort_of_IsOrdered (x ∷ xs) h = rw (sort_of_IsOrdered xs h.1) (insert_first x xs h.0)

  -- a symmetric relation between all pairs survives sorting
  module _ {κ} (R : A → A → Type κ) (sym : (x y : A) → R x y → R y x) where
    All-sym : (x : A) (ys : List A) → All (R x) ys → All (λ y. R y x) ys
    All-sym x [] h = tt
    All-sym x (y ∷ ys) h = (sym x y h.0, All-sym x ys h.1)

    Pairwise-insert :
        (x : A) (xs : List A) → All (R x) xs → Pairwise R xs → Pairwise R (insert le x xs)
    unfolding insert
    Pairwise-insert x [] h hs = (tt, tt)
    Pairwise-insert x (y ∷ ys) h hs = elim (Bool-cases (le x y)) [
      | inl e ↦ rw e (h, hs)
      | inr e ↦ rw e (All-insert (R y) x ys (sym x y h.0) hs.0, Pairwise-insert x ys h.1 hs.1)
    ]

    pub Pairwise-sort : (xs : List A) → Pairwise R xs → Pairwise R (sort le xs)
    unfolding sort
    Pairwise-sort [] h = tt
    Pairwise-sort (x ∷ xs) h =
        Pairwise-insert x (sort le xs) (All-sort (R x) xs h.0) (Pairwise-sort xs h.1)

module _ {ℓ} {A : Type ℓ} {le : A → A → Bool} (o : IsOrder le) where
  All-trans :
      (x y : A) (ys : List A)
      → le x y ≡ true
      → All (λ z. le y z ≡ true) ys
      → All (λ z. le x z ≡ true) ys
  All-trans x y [] h hs = tt
  All-trans x y (z ∷ zs) h hs = (o.trans x y z h hs.0, All-trans x y zs h hs.1)

  insert-IsOrdered : (x : A) (xs : List A) → IsOrdered le xs → IsOrdered le (insert le x xs)
  unfolding insert
  insert-IsOrdered x [] h = (tt, tt)
  insert-IsOrdered x (y ∷ ys) h = elim (Bool-cases (le x y)) [
    | inl e ↦ rw e ((e, All-trans x y ys e h.0), h)
    | inr e ↦ rw e (All-insert le _ x ys (o.total x y e) h.0, insert-IsOrdered x ys h.1)
  ]

  pub sort-IsOrdered : (xs : List A) → IsOrdered le (sort le xs)
  unfolding sort
  sort-IsOrdered [] = tt
  sort-IsOrdered (x ∷ xs) = insert-IsOrdered x (sort le xs) (sort-IsOrdered xs)

  -- a stable sort commutes with `filter`
  filter-insert :
      (p : A → Bool) (x : A) (xs : List A)
      → IsOrdered le xs
      → filter p (insert le x xs) ≡ (if p x then insert le x (filter p xs) else filter p xs)
  unfolding insert
  filter-insert p x [] h = ground arith
  filter-insert p x (y ∷ ys) h = elim (Bool-cases (le x y)) [
    | inl e ↦ elim (Bool-cases (p x)) [
      | inl f ↦
          rw (e, f)
            (sym (
              insert_first le x (filter p (y ∷ ys))
                (All-filter _ p (y ∷ ys) (e, All-trans x y ys e h.0))))
      | inr f ↦ rw (e, f)
    ]
    | inr e ↦ ground (arith, filter-insert p x ys h.1)
  ]

  pub filter-sort : (p : A → Bool) (xs : List A) → filter p (sort le xs) ≡ sort le (filter p xs)
  unfolding sort
  filter-sort p [] = refl
  filter-sort p (x ∷ xs) =
      ground (arith, filter-insert p x (sort le xs) (sort-IsOrdered xs), filter-sort p xs)
