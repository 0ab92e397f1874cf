-- ===== src/Coverage/Merge.antt =====
-- `addCovered` of frontend/src/services/telegram-coverage-service.ts.
use spectrum_knx.Prelude.{
  ℕ, ◌≤◌, ◌<◌, ◌≡◌, refl, ◌&&◌, ◌||◌, List, [], ◌∷◌, ◌++◌, arith, leb, ltb, any-append, All,
  All-append, All-sort, sort, IsOrder, IsOrdered, sort-IsOrdered, any-sort, Bool-cases, inl, inr,
  if◌then◌else◌,
}
use spectrum_knx.Coverage.{Interval, Coverage, start_le, merge_loop, merge_all, add_covered}
use spectrum_knx.Coverage.Points.{holds, covers, Follows, IsSeparated}

pub start-IsOrder : IsOrder start_le
start-IsOrder = record {
  total = λ (s, _) (t, _) h. ground arith;
  trans = λ (s, _) (t, _) (u, _) h k. ground arith;
}

abbrev Nonempty : Interval → Type 0
Nonempty (s, e) = s ≤ e

covers-merge_loop :
    (p s e : ℕ) (rest : List Interval)
    → IsOrdered start_le ((s, e) ∷ rest)
    → covers (merge_loop (s, e) rest) p ≡ covers ((s, e) ∷ rest) p
unfolding merge_loop
covers-merge_loop p s e [] o = refl
covers-merge_loop p s e ((t, f) ∷ rest) o = ground (
  arith,
  covers-merge_loop p s (if ltb e f then f else e) rest (o.0.1, o.1.1),
  covers-merge_loop p t f rest o.1,
)

-- the first interval of the result starts where the loop started
merge_loop_head : (x s e : ℕ) (rest : List Interval) → x < s → Follows x (merge_loop (s, e) rest)
unfolding merge_loop
merge_loop_head x s e [] h = h
merge_loop_head x s e ((t, f) ∷ rest) h =
    ground (arith, merge_loop_head x s (if ltb e f then f else e) rest h)

merge_loop-IsSeparated :
    (s e : ℕ) (rest : List Interval)
    → s ≤ e
    → All Nonempty rest
    → IsOrdered start_le rest
    → IsSeparated (merge_loop (s, e) rest)
unfolding merge_loop
merge_loop-IsSeparated s e [] h n o = (h, tt, tt)
merge_loop-IsSeparated s e ((t, f) ∷ rest) h n o = elim (Bool-cases (leb t e)) [
  | inl j ↦ rw j (merge_loop-IsSeparated s (if ltb e f then f else e) rest (ground arith) n.1 o.1)
  | inr j ↦
      rw j
        (h, merge_loop_head e t f rest (ground arith), merge_loop-IsSeparated t f rest n.0 n.1 o.1)
]

IsSeparated-Nonempty : (l : List Interval) → IsSeparated l → All Nonempty l
IsSeparated-Nonempty [] w = tt
IsSeparated-Nonempty (i ∷ l) w = (w.0, IsSeparated-Nonempty l w.2)

merge_all-IsSeparated :
    (l : List Interval) → All Nonempty l → IsOrdered start_le l → IsSeparated (merge_all l)
unfolding merge_all
merge_all-IsSeparated [] n o = tt
merge_all-IsSeparated ((s, e) ∷ l) n o = merge_loop-IsSeparated s e l n.0 n.1 o.1

covers-merge_all :
    (p : ℕ) (l : List Interval) → IsOrdered start_le l → covers (merge_all l) p ≡ covers l p
unfolding merge_all
covers-merge_all p [] o = refl
covers-merge_all p ((s, e) ∷ l) o = covers-merge_loop p s e l o

-- After `add_covered c start end` a point is covered exactly when it was covered before or lies
-- between `start` and `end`, both included; for `end < start` nothing changes.
pub covers-add_covered :
    (c : Coverage) (start end p : ℕ)
    → covers (add_covered c start end).covered p
      ≡ (covers c.covered p || (leb start p && leb p end))
unfolding add_covered
covers-add_covered c start end p = ground (
  arith,
  covers-merge_all p (sort start_le (c.covered ++ (start, end) ∷ []))
      (sort-IsOrdered start-IsOrder (c.covered ++ (start, end) ∷ [])),
  any-sort start_le (holds p) (c.covered ++ (start, end) ∷ []),
  any-append (holds p) c.covered ((start, end) ∷ []),
)

-- `add_covered` keeps the intervals sorted, nonempty and apart from one another.
pub add_covered-IsSeparated :
    (c : Coverage) (start end : ℕ)
    → IsSeparated c.covered
    → IsSeparated (add_covered c start end).covered
unfolding add_covered
add_covered-IsSeparated c start end w = elim (Bool-cases (ltb end start)) [
  | inl e ↦ rw e w
  | inr e ↦ rw e (
      merge_all-IsSeparated _
        (All-sort start_le Nonempty (c.covered ++ (start, end) ∷ []) (
          All-append Nonempty c.covered ((start, end) ∷ []) (IsSeparated-Nonempty c.covered w)
            (ground arith, tt)))
        (sort-IsOrdered start-IsOrder _))
]
