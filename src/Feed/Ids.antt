-- ===== src/Feed/Ids.antt =====
-- `idsRef` of frontend/src/hooks/useTelegramCache.ts, the ids that the live path takes for known.
use spectrum_knx.Prelude.{
  ◌≡◌, refl, ap, sym, ◌∙◌, Bool, true, false, not, ◌&&◌, ◌||◌, List, [], ◌∷◌, ◌++◌, arith,
  Bool-cases, inl, inr, Text, any, text_eq, text_eq_iff, includes, All, Pairwise-suffix,
}
use mathlib.Core.Path.{subst}
use spectrum_knx.Telegram.{TelegramEntry}
use spectrum_knx.Buffer.{Buffer, add, has, merge}
use spectrum_knx.Buffer.Merge.{
  has_id, IsDistinct, merge_lem, merge-IsDistinct, added_ids, add_fresh-IsDistinct, any-add,
}
use spectrum_knx.Buffer.Calls.{IsValid, merge-IsValid, add-IsValid}
use spectrum_knx.Feed.Frames.{add_entry-Entered}
use spectrum_knx.Feed.{
  Feed, set_add, set_delete, add_ids, delete_ids, merge_into_buffer, track_removed, add_entry,
}

includes-set_add :
    (ids : List Text) (id k : Text) → includes (set_add ids id) k ≡ (text_eq id k || includes ids k)
unfolding set_add includes
includes-set_add ids id k = elim (Bool-cases (includes ids id)) [
  | inl h ↦ elim (Bool-cases (text_eq id k)) [
    | inl e ↦ rw (h, e) (ap (includes ids) (sym ((text_eq_iff id k).0 e)) ∙ h)
    | inr e ↦ rw (h, e)
  ]
  | inr h ↦ rw h
]

includes-set_delete :
    (ids : List Text) (id k : Text)
    → includes (set_delete ids id) k ≡ (includes ids k && not (text_eq id k))
unfolding set_delete includes
includes-set_delete [] id k = refl
includes-set_delete (i ∷ ids) id k =
    ground
      (arith, includes-set_delete ids id k, text_eq_iff i id, text_eq_iff i k, text_eq_iff id k)

includes-add_ids :
    (ids : List Text) (l : List TelegramEntry) (k : Text)
    → includes (add_ids ids l) k ≡ (includes ids k || any (has_id k) l)
unfolding add_ids
includes-add_ids ids [] k = ground arith
includes-add_ids ids (e ∷ l) k =
    ground (arith, includes-add_ids (set_add ids e.id) l k, includes-set_add ids e.id k)

includes-delete_ids :
    (ids : List Text) (l : List TelegramEntry) (k : Text)
    → includes (delete_ids ids l) k ≡ (includes ids k && not (any (has_id k) l))
unfolding delete_ids
includes-delete_ids ids [] k = ground arith
includes-delete_ids ids (e ∷ l) k =
    ground (arith, includes-delete_ids (set_delete ids e.id) l k, includes-set_delete ids e.id k)

-- the live path knows exactly the ids in the buffer
pub record Tracks (s : Feed) : Type 0 where
  pub valid : IsValid s.buffer
  pub distinct : IsDistinct s.buffer.entries
  pub same : (id : Text) → includes s.ids id ≡ has s.buffer id

-- of distinct entries in two parts, the ids of one part are those of all without the other's
split_ids :
    (k : Text) (xs ys : List TelegramEntry)
    → IsDistinct (xs ++ ys)
    → any (has_id k) ys ≡ (any (has_id k) (xs ++ ys) && not (any (has_id k) xs))
split_ids k [] ys d = ground arith
split_ids k (x ∷ xs) ys d = ground (arith, split_ids k xs ys d.1, elsewhere (xs ++ ys) d.0)
  where
    elsewhere :
        (l : List TelegramEntry)
        → All (λ y. text_eq x.id y.id ≡ false) l
        → text_eq x.id k ≡ true
        → any (has_id k) l ≡ false
    elsewhere [] a h = refl
    elsewhere (y ∷ l) a h = ground (
      arith,
      a.0,
      elsewhere l a.1 h,
      text_eq_iff x.id k,
      text_eq_iff y.id k,
      text_eq_iff x.id y.id,
    )

-- When the known ids are exactly those of a buffer that is in order, within its size and without an
-- id twice, this stays so after a batch is merged that has no id twice.
pub merge_into_buffer-Tracks :
    (batch : List TelegramEntry) (s : Feed)
    → Tracks s
    → IsDistinct batch
    → Tracks (merge_into_buffer batch s).1
unfolding merge_into_buffer track_removed has
merge_into_buffer-Tracks batch s t d =
    let b = s.buffer in
    let v = t.valid in
    let all_distinct = merge-IsDistinct b batch v.ordered v.bounded t.distinct d in
    record {
      valid = merge-IsValid b batch v;
      distinct = Pairwise-suffix _ (merge b batch).0.1 (merge b batch).1.entries all_distinct;
      same = λ k. ground (
        arith,
        includes-delete_ids (add_ids s.ids (merge b batch).0.0) (merge b batch).0.1 k,
        includes-add_ids s.ids (merge b batch).0.0 k,
        t.same k,
        added_ids b batch k,
        split_ids k (merge b batch).0.1 (merge b batch).1.entries all_distinct,
        (merge_lem b batch v.ordered v.bounded).2 k,
      );
    }

same_ids :
    (e : TelegramEntry) (ids : List Text) (removed kept : List TelegramEntry) (k : Text)
    (old : Bool)
    → includes ids k ≡ old
    → any (has_id k) (removed ++ kept) ≡ (old || any (has_id k) (e ∷ []))
    → IsDistinct (removed ++ kept)
    → any (has_id e.id) kept ≡ true
    → includes (set_add (delete_ids ids removed) e.id) k ≡ any (has_id k) kept
same_ids e ids removed kept k old known together d stays = ground (
  arith,
  includes-set_add (delete_ids ids removed) e.id k,
  includes-delete_ids ids removed k,
  split_ids k removed kept d,
  split_ids e.id removed kept d,
  text_eq_iff e.id k,
)

known_dropped : (e : TelegramEntry) (s : Feed) → includes s.ids e.id ≡ true → add_entry e s ≡ s
unfolding add_entry
known_dropped e s old = rw old

-- When the known ids are those of a valid buffer, they are so after a live telegram that the
-- buffer keeps, or that is known already and dropped.
pub add_entry-Tracks :
    (e : TelegramEntry) (s : Feed)
    → Tracks s
    → has (add_entry e s).buffer e.id ≡ true
    → Tracks (add_entry e s)
unfolding has
add_entry-Tracks e s t kept = elim (Bool-cases (includes s.ids e.id)) [
  | inl old ↦ subst Tracks (sym (known_dropped e s old)) t
  | inr new ↦
      let p = add_entry-Entered e s new in
      let v = t.valid in
      let fresh = sym (t.same e.id) ∙ new in
      let (removed, b') = add s.buffer (e ∷ []) in
      let all_distinct =
        add_fresh-IsDistinct s.buffer (e ∷ []) v.ordered v.bounded t.distinct (tt, tt)
          (fresh, tt) in
      let in_buffer = ap (λ b. has b e.id) (sym p.buffer) ∙ kept in
      record {
        valid = subst IsValid (sym p.buffer) (add-IsValid s.buffer (e ∷ []) v);
        distinct =
            subst (λ (b : Buffer). IsDistinct b.entries) (sym p.buffer)
              (Pairwise-suffix _ removed b'.entries all_distinct);
        same = λ k.
            ap (λ ids. includes ids k) p.ids
            ∙ same_ids e s.ids removed b'.entries k (has s.buffer k) (t.same k)
                (any-add s.buffer (e ∷ []) k v.ordered v.bounded) all_distinct in_buffer
            ∙ ap (λ b. has b k) (sym p.buffer);
      }
]
