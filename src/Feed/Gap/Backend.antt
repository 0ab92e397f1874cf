-- ===== src/Feed/Gap/Backend.antt =====
-- A backend that frontend/src/hooks/useTelegramCache.ts can rely on: it has some rows, the newest
-- first, and answers with those of the window until the limit is reached.
use spectrum_knx.Prelude.{
  ℕ, zero, suc, ◌≤◌, ◌<◌, ◌≡◌, refl, Bool, true, false, ◌&&◌, List, [], ◌∷◌, leb, ◌==◌,
  if◌then◌else◌, length, arith, Bool-cases, inl, inr, ◌⊎◌, Text, any, All, Pairwise,
}
use spectrum_knx.Telegram.{TelegramEntry}
use spectrum_knx.Buffer.Merge.{has_id}
use spectrum_knx.Feed.Gap.Accounted.{Answers}

abbrev in_window : ℕ → ℕ → TelegramEntry → Bool
in_window start end e = leb start e.ts && leb e.ts end

put_first : TelegramEntry → List TelegramEntry × Bool → List TelegramEntry × Bool
put_first e answer = (e ∷ answer.0, answer.1)

-- the rows of the window up to the limit, and whether one was left out
pub answer_of : List TelegramEntry → ℕ → ℕ → ℕ → List TelegramEntry × Bool
unfolding put_first
answer_of [] start end limit = ([], false)
answer_of (e ∷ rows) start end zero =
    if in_window start end e then ([], true) else answer_of rows start end zero
answer_of (e ∷ rows) start end (suc limit) =
    let taken = put_first e (answer_of rows start end limit) in
    let rest = answer_of rows start end (suc limit) in if in_window start end e then taken else rest

abbrev pub is_row : Text → ℕ → TelegramEntry → Bool
is_row id ts e = has_id id e && e.ts == ts

-- the rows of the backend
abbrev pub RowOf : List TelegramEntry → Text → ℕ → Type 0
RowOf rows id ts = any (is_row id ts) rows ≡ true

abbrev NewestFirst : List TelegramEntry → Type 0
NewestFirst = Pairwise (λ (a b : TelegramEntry). b.ts ≤ a.ts)

module _ (start end : ℕ) where
  within :
      (rows : List TelegramEntry) (limit : ℕ) → length (answer_of rows start end limit).0 ≤ limit
  unfolding answer_of
  within [] limit = omega arith
  within (e ∷ rows) zero = elim (Bool-cases (in_window start end e)) [
    | inl h ↦ rw h (omega arith)
    | inr h ↦ rw h (within rows zero)
  ]
  within (e ∷ rows) (suc limit) = elim (Bool-cases (in_window start end e)) [
    | inl h ↦ rw h (omega (arith, within rows limit))
    | inr h ↦ rw h (within rows (suc limit))
  ]

  inside :
      (rows : List TelegramEntry) (limit : ℕ)
      → All
          (λ (e : TelegramEntry). (start ≤ e.ts) × (e.ts ≤ end))
          (answer_of rows start end limit).0
  unfolding answer_of
  inside [] limit = tt
  inside (e ∷ rows) zero = elim (Bool-cases (in_window start end e)) [
    | inl h ↦ rw h tt
    | inr h ↦ rw h (inside rows zero)
  ]
  inside (e ∷ rows) (suc limit) = elim (Bool-cases (in_window start end e)) [
    | inl h ↦ rw h ((ground (arith, h), ground (arith, h)), inside rows limit)
    | inr h ↦ rw h (inside rows (suc limit))
  ]

  -- a row of the window that is not in the answer was left out, after rows that are not older
  abbrev LeftOut : ℕ → List TelegramEntry × Bool → Type 0
  LeftOut ts answer = (answer.1 ≡ true) × All (λ (e : TelegramEntry). ts ≤ e.ts) answer.0

  older_rows :
      (e : TelegramEntry) (rows : List TelegramEntry) (id : Text) (ts : ℕ)
      → All (λ (b : TelegramEntry). b.ts ≤ e.ts) rows
      → any (is_row id ts) rows ≡ true
      → ts ≤ e.ts
  older_rows e [] id ts a h = cc h
  older_rows e (x ∷ rows) id ts a h = elim (Bool-cases (is_row id ts x)) [
    | inl k ↦ let below = a.0 in ground (arith, below, k)
    | inr k ↦ older_rows e rows id ts a.1 (ground (arith, h, k))
  ]

  in_or_LeftOut :
      (rows : List TelegramEntry) (limit : ℕ) (id : Text) (ts : ℕ)
      → NewestFirst rows
      → RowOf rows id ts
      → start ≤ ts
      → ts ≤ end
      → (any (has_id id) (answer_of rows start end limit).0 ≡ true)
        ⊎ LeftOut ts (answer_of rows start end limit)
  unfolding answer_of
  in_or_LeftOut [] limit id ts d row a b = cc row
  in_or_LeftOut (e ∷ rows) zero id ts d row a b = elim (Bool-cases (in_window start end e)) [
    | inl h ↦ rw h (inr (refl, tt))
    | inr h ↦ rw h (in_or_LeftOut rows zero id ts d.1 (ground (arith, row, h)) a b)
  ]
  in_or_LeftOut (e ∷ rows) (suc limit) id ts d row a b = elim (Bool-cases (in_window start end e)) [
    | inr h ↦ rw h (in_or_LeftOut rows (suc limit) id ts d.1 (ground (arith, row, h)) a b)
    | inl h ↦ rw h (elim (Bool-cases (is_row id ts e)) [
      | inl k ↦ inl (ground (arith, k))
      | inr k ↦
          let later : RowOf rows id ts = ground (arith, row, k) in
          elim (in_or_LeftOut rows limit id ts d.1 later a b) [
            | inl m ↦ inl (ground (arith, m))
            | inr m ↦ inr (m.0, (older_rows e rows id ts d.0 later, m.1))
          ]
    ])
  ]

  -- below the limit nothing is left out
  some_taken :
      (rows : List TelegramEntry) (limit : ℕ)
      → 0 < limit
      → (answer_of rows start end limit).1 ≡ true
      → 0 < length (answer_of rows start end limit).0
  unfolding answer_of
  some_taken rows zero p h = absurd (omega arith)
  some_taken [] (suc limit) p h = cc h
  some_taken (e ∷ rows) (suc limit) p h = elim (Bool-cases (in_window start end e)) [
    | inl k ↦ rw k (omega arith)
    | inr k ↦ rw k (some_taken rows (suc limit) p (rw k at h))
  ]

-- Such a backend answers as the loads need it, whatever its rows, also with several rows in one
-- millisecond.
pub answer_of-Answers :
    (rows : List TelegramEntry) → NewestFirst rows → Answers (answer_of rows) (RowOf rows)
answer_of-Answers rows d = record {
  within_limit = λ start end limit. within start end rows limit;
  in_window = λ start end limit. inside start end rows limit;
  complete = λ start end limit ts id p row a b.
      elim (in_or_LeftOut start end rows limit id ts d row a b) [
        | inl h ↦ inl h
        | inr h ↦ inr (h.0, some_taken start end rows limit p h.0, h.1)
      ];
}
