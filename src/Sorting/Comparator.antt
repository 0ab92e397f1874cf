-- ===== src/Sorting/Comparator.antt =====
-- What a consistent comparator is, and those of the columns of frontend/src/utils/sortConfig.ts.
use spectrum_knx.Prelude.{
  ℕ, ◌≡◌, refl, ap, sym, ◌∙◌, true, false, Option, none, some, [], ◌∷◌, ltb, arith, Text,
  Bool-cases, inl, inr, ◌⊎◌,
}
use spectrum_knx.Telegram.{ℤ, pos, negsuc}
use spectrum_knx.Sorting.{
  Sign, before, same, after, flip, or_then, compare_numbers, compare_texts, compare_integers,
  compare_nullable, is_not_after,
}

-- the swapped arguments have the flipped sign, and "not after" is transitive
pub record IsComparator {A : Type 0} (c : A → A → Sign) : Type 0 where
  pub swap : (x y : A) → c y x ≡ flip (c x y)
  pub trans :
      (x y z : A)
      → is_not_after (c x y) ≡ true
      → is_not_after (c y z) ≡ true
      → is_not_after (c x z) ≡ true

pub flip-flip : (s : Sign) → flip (flip s) ≡ s
flip-flip before = refl
flip-flip same = refl
flip-flip after = refl

pub numbers-IsComparator : IsComparator compare_numbers
unfolding compare_numbers
numbers-IsComparator = record { swap = λ x y. go x y; trans = λ x y z h k. ground (arith, h, k) }
  where
    go : (x y : ℕ) → compare_numbers y x ≡ flip (compare_numbers x y)
    go x y =
        unfold compare_numbers in
        elim (Bool-cases (ltb x y)) [
          | inl h ↦ let k : ltb y x ≡ false = ground (arith, h) in rw (h, k)
          | inr h ↦ elim (Bool-cases (ltb y x)) [ inl k ↦ rw (h, k) | inr k ↦ rw (h, k) ]
        ]

-- of two steps that do not go back, both stay, or together they go forward
mixed :
    {A : Type 0} {c : A → A → Sign} (i : IsComparator c) (x y z : A)
    → is_not_after (c x y) ≡ true
    → is_not_after (c y z) ≡ true
    → ((c x y ≡ same) × (c y z ≡ same) × (c x z ≡ same)) ⊎ (c x z ≡ before)
mixed {c = c} i x y z h k = go (c x y) (c y z) (c x z) refl refl refl
  where
    back : (s : Sign) → c x z ≡ s → is_not_after (flip s) ≡ true → is_not_after (c z x) ≡ true
    back s e f = rw (i.swap x z, e) f

    go :
        (s t u : Sign)
        → c x y ≡ s
        → c y z ≡ t
        → c x z ≡ u
        → ((c x y ≡ same) × (c y z ≡ same) × (c x z ≡ same)) ⊎ (c x z ≡ before)
    go s t before p q r = inr r
    go s t after p q r = cc (i.trans x y z h k, r)
    go same same same p q r = inl (p, q, r)
    go before t same p q r =
        let forth = i.trans y z x k (back same r refl) in
        let swapped = i.swap x y in cc (forth, swapped, p)
    go s before same p q r =
        let forth = i.trans z x y (back same r refl) h in
        let swapped = i.swap y z in cc (forth, swapped, q)
    go after t same p q r = cc (h, p)
    go s after same p q r = cc (k, q)

flip-or_then : (s t : Sign) → flip (or_then s t) ≡ or_then (flip s) (flip t)
flip-or_then before t = refl
flip-or_then same t = refl
flip-or_then after t = refl

not_after-or_then : (s t : Sign) → is_not_after (or_then s t) ≡ true → is_not_after s ≡ true
not_after-or_then before t h = refl
not_after-or_then same t h = refl
not_after-or_then after t h = h

-- the first comparator decides, and the second among what the first does not tell apart
or_then_trans :
    {A : Type 0} {c : A → A → Sign} (i : IsComparator c) (x y z : A) (s t u : Sign)
    → (is_not_after s ≡ true → is_not_after t ≡ true → is_not_after u ≡ true)
    → is_not_after (or_then (c x y) s) ≡ true
    → is_not_after (or_then (c y z) t) ≡ true
    → is_not_after (or_then (c x z) u) ≡ true
or_then_trans {c = c} i x y z s t u f h k =
    elim (mixed i x y z (not_after-or_then (c x y) s h) (not_after-or_then (c y z) t k)) [
      | inr e ↦ rw e
      | inl e ↦ rw e.2 (
          f (ap (λ a. is_not_after (or_then a s)) (sym e.0) ∙ h)
            (ap (λ a. is_not_after (or_then a t)) (sym e.1) ∙ k))
    ]

pub or_then-IsComparator :
    {A : Type 0} {c d : A → A → Sign}
    → IsComparator c
    → IsComparator d
    → IsComparator (λ x y. or_then (c x y) (d x y))
or_then-IsComparator {c = c} {d = d} i j = record {
  swap = λ x y. rw (i.swap x y, j.swap x y) (sym (flip-or_then (c x y) (d x y)));
  trans = λ x y z. or_then_trans i x y z (d x y) (d y z) (d x z) (j.trans x y z);
}

texts_swap : (s t : Text) → compare_texts t s ≡ flip (compare_texts s t)
unfolding compare_texts
texts_swap [] [] = refl
texts_swap [] (b ∷ t) = refl
texts_swap (a ∷ s) [] = refl
texts_swap (a ∷ s) (b ∷ t) =
    rw (numbers-IsComparator.swap a b, texts_swap s t)
      (sym (flip-or_then (compare_numbers a b) (compare_texts s t)))

texts_trans :
    (s t u : Text)
    → is_not_after (compare_texts s t) ≡ true
    → is_not_after (compare_texts t u) ≡ true
    → is_not_after (compare_texts s u) ≡ true
unfolding compare_texts
texts_trans [] t [] h k = refl
texts_trans [] t (c ∷ u) h k = refl
texts_trans (a ∷ s) [] u h k = cc h
texts_trans (a ∷ s) (b ∷ t) [] h k = cc k
texts_trans (a ∷ s) (b ∷ t) (c ∷ u) h k =
    or_then_trans numbers-IsComparator a b c (compare_texts s t) (compare_texts t u)
      (compare_texts s u) (texts_trans s t u) h k

pub texts-IsComparator : IsComparator compare_texts
texts-IsComparator = record { swap = texts_swap; trans = texts_trans }

integers_swap : (x y : ℤ) → compare_integers y x ≡ flip (compare_integers x y)
unfolding compare_integers
integers_swap (pos a) (pos b) = numbers-IsComparator.swap a b
integers_swap (pos a) (negsuc b) = refl
integers_swap (negsuc a) (pos b) = refl
integers_swap (negsuc a) (negsuc b) = numbers-IsComparator.swap b a

integers_trans :
    (x y z : ℤ)
    → is_not_after (compare_integers x y) ≡ true
    → is_not_after (compare_integers y z) ≡ true
    → is_not_after (compare_integers x z) ≡ true
unfolding compare_integers
integers_trans (pos a) (pos b) (pos c) h k = numbers-IsComparator.trans a b c h k
integers_trans (pos a) (pos b) (negsuc c) h k = cc k
integers_trans (pos a) (negsuc b) z h k = cc h
integers_trans (negsuc a) y (pos c) h k = refl
integers_trans (negsuc a) (pos b) (negsuc c) h k = cc k
integers_trans (negsuc a) (negsuc b) (negsuc c) h k = numbers-IsComparator.trans c b a k h

pub integers-IsComparator : IsComparator compare_integers
integers-IsComparator = record { swap = integers_swap; trans = integers_trans }

pub nullable-IsComparator :
    {A : Type 0} {c : A → A → Sign} → IsComparator c → IsComparator (compare_nullable c)
unfolding compare_nullable
nullable-IsComparator {A} {c} i = record { swap = swapped; trans = chained }
  where
    swapped : (x y : Option A) → compare_nullable c y x ≡ flip (compare_nullable c x y)
    swapped none none = refl
    swapped none (some b) = refl
    swapped (some a) none = refl
    swapped (some a) (some b) = i.swap a b

    chained :
        (x y z : Option A)
        → is_not_after (compare_nullable c x y) ≡ true
        → is_not_after (compare_nullable c y z) ≡ true
        → is_not_after (compare_nullable c x z) ≡ true
    chained none none none h k = refl
    chained none none (some z) h k = k
    chained none (some y) z h k = cc h
    chained (some x) y none h k = refl
    chained (some x) none (some z) h k = cc k
    chained (some x) (some y) (some z) h k = i.trans x y z h k

-- a comparator on what a function gives
pub by :
    {A B : Type 0} {c : B → B → Sign} (f : A → B)
    → IsComparator c
    → IsComparator (λ x y. c (f x) (f y))
by f i = record { swap = λ x y. i.swap (f x) (f y); trans = λ x y z. i.trans (f x) (f y) (f z) }
