-- ===== src/Buffer/Merge.antt =====
-- `merge` of frontend/src/services/telegram-buffer-service.ts: the deduplicating load.
use spectrum_knx.Prelude.{
  ◌≤◌, ◌≡◌, refl, ap, ◌∙◌, Bool, false, not, ◌&&◌, ◌||◌, List, [], ◌∷◌, ◌++◌, length, filter, any,
  sort, Text, text_eq, arith, All, Pairwise, Pairwise-append, Pairwise-filter, Pairwise-sort,
  IsOrdered, Bool-cases, inl, inr, any-append, any-sort, All-sort, All-filter_test, text_eq_comm,
  text_eq_iff,
}
use spectrum_knx.Telegram.{TelegramEntry, ts_le}
use spectrum_knx.Buffer.{Buffer, add, has, unique, merge}
use spectrum_knx.Buffer.Order.{add_lem}

abbrev pub has_id : Text → TelegramEntry → Bool
has_id id e = text_eq e.id id

abbrev pub IsDistinct : List TelegramEntry → Type 0
IsDistinct = Pairwise (λ a b. text_eq a.id b.id ≡ false)

IsDistinct_sym : (a b : TelegramEntry) → text_eq a.id b.id ≡ false → text_eq b.id a.id ≡ false
IsDistinct_sym a b h = text_eq_comm b.id a.id ∙ h

-- an id is among the new ones exactly when the batch has it and the buffer has not
any_unique :
    (b : Buffer) (id : Text) (batch : List TelegramEntry)
    → any (has_id id) (filter (λ e. not (has b e.id)) batch)
      ≡ (any (has_id id) batch && not (has b id))
any_unique b id [] = refl
any_unique b id (e ∷ batch) = elim (Bool-cases (text_eq e.id id)) [
  | inl h ↦
      rw ((text_eq_iff e.id id).0 h)
        (ground (arith, any_unique b id batch, (text_eq_iff id id).1 refl))
  | inr h ↦ ground (arith, any_unique b id batch)
]

-- ids that the buffer has not are apart from those that it has
apart :
    (id : Text) (l : List TelegramEntry)
    → any (has_id id) l ≡ false
    → All (λ e. text_eq e.id id ≡ false) l
apart id [] h = tt
apart id (e ∷ l) h = (ground arith, apart id l (ground arith))

All-apart :
    (old new : List TelegramEntry)
    → All (λ e. any (has_id e.id) old ≡ false) new
    → All (λ x. All (λ y. text_eq x.id y.id ≡ false) new) old
All-apart [] new h = tt
All-apart (x ∷ old) new h = (here new h, All-apart old new (later new h))
  where
    here :
        (new : List TelegramEntry)
        → All (λ e. any (has_id e.id) (x ∷ old) ≡ false) new
        → All (λ y. text_eq x.id y.id ≡ false) new
    here [] h = tt
    here (y ∷ new) h = (ground (arith, h.0), here new h.1)

    later :
        (new : List TelegramEntry)
        → All (λ e. any (has_id e.id) (x ∷ old) ≡ false) new
        → All (λ e. any (has_id e.id) old ≡ false) new
    later [] h = tt
    later (y ∷ new) h = (ground (arith, h.0), later new h.1)

module _ (b : Buffer) (batch : List TelegramEntry) where
  unique-IsDistinct : IsDistinct batch → IsDistinct (unique b batch)
  unfolding unique
  unique-IsDistinct d =
      Pairwise-sort ts_le _ IsDistinct_sym _ (Pairwise-filter _ (λ e. not (has b e.id)) batch d)

  unique_new : All (λ e. has b e.id ≡ false) (unique b batch)
  unfolding unique
  unique_new =
      All-sort ts_le (λ e. has b e.id ≡ false) _
        (All-filter_test (λ e. has b e.id ≡ false) (λ e. not (has b e.id)) batch
          (λ e h. ground arith))

  pub added_ids :
      (id : Text) → any (has_id id) (merge b batch).0.0 ≡ (any (has_id id) batch && not (has b id))
  unfolding merge unique
  added_ids id = any-sort ts_le (has_id id) _ ∙ any_unique b id batch

  ids_after :
      (id : Text)
      → any (has_id id) (sort ts_le (b.entries ++ unique b batch))
        ≡ (has b id || any (has_id id) batch)
  unfolding has unique
  ids_after id = ground (
    arith,
    any-sort ts_le (has_id id) (b.entries ++ unique b batch),
    any-append (has_id id) b.entries (unique b batch),
    any-sort ts_le (has_id id) (filter (λ e. not (has b e.id)) batch),
    any_unique b id batch,
  )

-- A merge into a buffer that is in order and within its size reports the entries that it added,
-- none of them known before. What it removed and what stays are together the old entries and the
-- added ones in chronological order, and hold exactly the ids of the old buffer and of the batch.
pub merge_lem :
    (b : Buffer) (batch : List TelegramEntry)
    → IsOrdered ts_le b.entries
    → length b.entries ≤ b.max_size
    → (let ((added, removed), b') = merge b batch in
        All (λ e. has b e.id ≡ false) added
        × (removed ++ b'.entries ≡ sort ts_le (b.entries ++ added))
        × ((id : Text)
            → any (has_id id) (removed ++ b'.entries) ≡ (has b id || any (has_id id) batch)))
unfolding merge
merge_lem b batch o h =
    let spec = (add_lem b (unique b batch) o h).0 in
    (unique_new b batch, spec, λ id. ap (any (has_id id)) spec ∙ ids_after b batch id)

-- entries with new, distinct ids keep the ids distinct
pub add_fresh-IsDistinct :
    (b : Buffer) (new : List TelegramEntry)
    → IsOrdered ts_le b.entries
    → length b.entries ≤ b.max_size
    → IsDistinct b.entries
    → IsDistinct new
    → All (λ e. has b e.id ≡ false) new
    → IsDistinct ((add b new).0 ++ (add b new).1.entries)
unfolding has
add_fresh-IsDistinct b new o h d e fresh = rw (add_lem b new o h).0 (
    Pairwise-sort ts_le _ IsDistinct_sym _
      (Pairwise-append _ b.entries new d e (All-apart b.entries new fresh)))

pub any-add :
    (b : Buffer) (new : List TelegramEntry) (id : Text)
    → IsOrdered ts_le b.entries
    → length b.entries ≤ b.max_size
    → any (has_id id) ((add b new).0 ++ (add b new).1.entries) ≡ (has b id || any (has_id id) new)
unfolding has
any-add b new id o h =
    ap (any (has_id id)) (add_lem b new o h).0
    ∙ any-sort ts_le (has_id id) (b.entries ++ new)
    ∙ any-append (has_id id) b.entries new

-- A merge into a buffer that is in order and within its size leaves distinct ids when those of
-- the buffer and those of the batch are distinct.
pub merge-IsDistinct :
    (b : Buffer) (batch : List TelegramEntry)
    → IsOrdered ts_le b.entries
    → length b.entries ≤ b.max_size
    → IsDistinct b.entries
    → IsDistinct batch
    → IsDistinct ((merge b batch).0.1 ++ (merge b batch).1.entries)
unfolding merge
merge-IsDistinct b batch o h d e =
    add_fresh-IsDistinct b (unique b batch) o h d (unique-IsDistinct b batch e) (unique_new b batch)
