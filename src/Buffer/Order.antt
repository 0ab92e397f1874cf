-- ===== src/Buffer/Order.antt =====
-- `add` of frontend/src/services/telegram-buffer-service.ts: the fast path is as good as a sort.
use spectrum_knx.Prelude.{
  ◌<◌, insert, insert_first, ℕ, suc, ◌-◌, ◌+◌, ◌≤◌, ◌≡◌, refl, sym, ap, ◌∙◌, true, false, List, [],
  ◌∷◌, ◌++◌, ltb, leb, length, last?, sort, arith, All, Pairwise-append, IsOrder, IsOrdered,
  sort_of_IsOrdered, sort-IsOrdered, Bool-cases, inl, inr, take-append-drop, length-drop,
  length-append, length-sort, min, Pairwise-drop,
}
use mathlib.Core.List.{append-nil}
use spectrum_knx.Telegram.{TelegramEntry, ts_le}
use spectrum_knx.Buffer.{Buffer, new_are_sorted, before_tail, push, evict, add}

pub ts-IsOrder : IsOrder ts_le
ts-IsOrder = record { total = λ a b h. ground arith; trans = λ a b c h k. ground arith }

abbrev IsBefore : ℕ → TelegramEntry → Type 0
IsBefore t e = leb t e.ts ≡ true

from_first :
    (t : ℕ) (x : TelegramEntry) (l : List TelegramEntry)
    → t ≤ x.ts
    → All (IsBefore x.ts) l
    → All (IsBefore t) l
from_first t x [] h a = tt
from_first t x (y ∷ l) h a = (ground arith, from_first t x l h a.1)

IsOrdered_of_sorted : (l : List TelegramEntry) → new_are_sorted l ≡ true → IsOrdered ts_le l
unfolding new_are_sorted
IsOrdered_of_sorted [] h = tt
IsOrdered_of_sorted (x ∷ []) h = (tt, tt)
IsOrdered_of_sorted (x ∷ y ∷ l) h =
    let rest = IsOrdered_of_sorted (y ∷ l) (ground arith) in
    ((ground arith, from_first x.ts y l (ground arith) rest.0), rest)

-- with the tail not after `t`, no entry is
by_tail :
    (l : List TelegramEntry) (t : ℕ)
    → IsOrdered ts_le l
    → before_tail t (last? l) ≡ false
    → All (λ e. leb e.ts t ≡ true) l
unfolding before_tail
by_tail [] t o h = tt
by_tail (x ∷ []) t o h = (ground arith, tt)
by_tail (x ∷ y ∷ l) t o h =
    let rest = by_tail (y ∷ l) t o.1 h in (ground (arith, o.0.0, rest.0), rest)

All-before :
    (old new : List TelegramEntry) (t : ℕ)
    → All (λ e. leb e.ts t ≡ true) old
    → All (IsBefore t) new
    → All (λ x. All (λ y. ts_le x y ≡ true) new) old
All-before [] new t a b = tt
All-before (x ∷ old) new t a b = (go new b, All-before old new t a.1 b)
  where
    go : (new : List TelegramEntry) → All (IsBefore t) new → All (λ y. ts_le x y ≡ true) new
    go [] b = tt
    go (y ∷ new) b = (ground (arith, a.0, b.0), go new b.1)

first-IsBefore :
    (first : TelegramEntry) (rest : List TelegramEntry)
    → new_are_sorted (first ∷ rest) ≡ true
    → All (IsBefore first.ts) (first ∷ rest)
first-IsBefore first rest s = (ground arith, (IsOrdered_of_sorted (first ∷ rest) s).0)

-- Appending without a sort gives what the sort would give.
pub push-eq-sort :
    (old new : List TelegramEntry) → IsOrdered ts_le old → push old new ≡ sort ts_le (old ++ new)
unfolding push
push-eq-sort old [] o = rw append-nil (sym (sort_of_IsOrdered ts_le old o))
push-eq-sort old (first ∷ rest) o = elim (Bool-cases (new_are_sorted (first ∷ rest))) [
  | inl s ↦ elim (Bool-cases (before_tail first.ts (last? old))) [
    | inl k ↦ rw (s, k)
    | inr k ↦
        rw (s, k)
          (sym (
            sort_of_IsOrdered ts_le (old ++ first ∷ rest) (
              Pairwise-append _ old (first ∷ rest) o (IsOrdered_of_sorted (first ∷ rest) s) (
                All-before old (first ∷ rest) first.ts (by_tail old first.ts o k)
                  (first-IsBefore first rest s)))))
  ]
  | inr s ↦ rw s
]

pub evict-append :
    (max_size : ℕ) (l : List TelegramEntry) → (evict max_size l).0 ++ (evict max_size l).1 ≡ l
unfolding evict
evict-append max_size l = elim (Bool-cases (ltb max_size (length l))) [
  | inl h ↦ rw h (take-append-drop _ l)
  | inr h ↦ rw h
]

pub length-evict :
    (max_size : ℕ) (l : List TelegramEntry) → length (evict max_size l).1 ≡ min max_size (length l)
unfolding evict
length-evict max_size l = elim (Bool-cases (ltb max_size (length l))) [
  | inl h ↦ rw h (ground (arith, length-drop (length l - max_size) l))
  | inr h ↦ rw h (ground arith)
]

pub evict-IsOrdered :
    (max_size : ℕ) (l : List TelegramEntry)
    → IsOrdered ts_le l
    → IsOrdered ts_le (evict max_size l).1
unfolding evict
evict-IsOrdered max_size l o = elim (Bool-cases (ltb max_size (length l))) [
  | inl h ↦ rw h (Pairwise-drop _ (length l - max_size) l o)
  | inr h ↦ rw h o
]

-- Adding to a buffer that is in order and within its size: what is removed, followed by what
-- stays, is the old buffer and the new entries in chronological order, those of one time in the
-- order of arrival; the oldest are removed, and exactly as many as do not fit.
pub add_lem :
    (b : Buffer) (new : List TelegramEntry)
    → IsOrdered ts_le b.entries
    → length b.entries ≤ b.max_size
    → ((add b new).0 ++ (add b new).1.entries ≡ sort ts_le (b.entries ++ new))
      × (length (add b new).1.entries ≡ min b.max_size (length b.entries + length new))
      × ((add b new).1.max_size ≡ b.max_size)
unfolding add
add_lem b [] o h = (rw append-nil (sym (sort_of_IsOrdered ts_le b.entries o)), omega arith, refl)
add_lem b (first ∷ rest) o h = (
  evict-append b.max_size _ ∙ push-eq-sort b.entries (first ∷ rest) o,
  length-evict b.max_size _
      ∙ rw (push-eq-sort b.entries (first ∷ rest) o, length-sort, length-append {0}),
  refl,
)

-- The buffer stays in order, and in its bound.
pub add-IsOrdered :
    (b : Buffer) (new : List TelegramEntry)
    → IsOrdered ts_le b.entries
    → IsOrdered ts_le (add b new).1.entries
unfolding add
add-IsOrdered b [] o = o
add-IsOrdered b (first ∷ rest) o =
    evict-IsOrdered b.max_size _
      (rw (push-eq-sort b.entries (first ∷ rest) o) (sort-IsOrdered ts-IsOrder _))

-- An entry older than all others is sorted to the front.
pub sort_last :
    (old : List TelegramEntry) (e : TelegramEntry)
    → IsOrdered ts_le old
    → All (λ x. e.ts < x.ts) old
    → sort ts_le (old ++ e ∷ []) ≡ e ∷ old
unfolding sort insert
sort_last [] e o a = refl
sort_last (x ∷ old) e o a =
    ap (insert ts_le x) (sort_last old e o.1 a.1) ∙ in_front x old (ground (arith, a.0)) o.0
  where
    in_front :
        (x : TelegramEntry) (l : List TelegramEntry)
        → leb x.ts e.ts ≡ false
        → All (λ y. ts_le x y ≡ true) l
        → insert ts_le x (e ∷ l) ≡ e ∷ x ∷ l
    in_front x l h a = rw h (ap (◌∷◌ e) (insert_first ts_le x l a))

evict_one : (e : TelegramEntry) (l : List TelegramEntry) → evict (length l) (e ∷ l) ≡ (e ∷ [], l)
unfolding evict
evict_one e l =
    let one : suc (length l) - length l ≡ 1 = omega arith in
    let longer : ltb (length l) (suc (length l)) ≡ true = ground arith in rw (longer, one)

-- A full buffer does not keep an entry that is older than all of its own.
pub add_oldest :
    (b : Buffer) (e : TelegramEntry)
    → IsOrdered ts_le b.entries
    → length b.entries ≡ b.max_size
    → All (λ x. e.ts < x.ts) b.entries
    → add b (e ∷ []) ≡ (e ∷ [], b)
unfolding add
add_oldest b e o full a =
    let split : evict b.max_size (push b.entries (e ∷ [])) ≡ (e ∷ [], b.entries) =
      ap (evict b.max_size) (push-eq-sort b.entries (e ∷ []) o ∙ sort_last b.entries e o a)
      ∙ ap (λ n. evict n (e ∷ b.entries)) (sym full)
      ∙ evict_one e b.entries in
    rw split
