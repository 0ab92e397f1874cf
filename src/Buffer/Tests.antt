-- ===== src/Buffer/Tests.antt =====
-- Runs of the buffer, and its theorems at concrete telegrams.
use spectrum_knx.Prelude.{
  ◌+◌, ◌≡◌, refl, false, ◌||◌, [], ◌∷◌, ◌++◌, All, any, length, min, sort, arith, Text, text_eq,
  IsOrdered,
}
use spectrum_knx.Telegram.{ts_le}
use spectrum_knx.Telegram.Samples.{entry_a, entry_b, entry_c}
use spectrum_knx.Buffer.{Buffer, add, push, evict, has, unique, merge}
use spectrum_knx.Buffer.Order.{add_lem}
use spectrum_knx.Buffer.Merge.{has_id, merge_lem}
use spectrum_knx.Buffer.Calls.{IsValid, add_call, merge_call, resize, wipe, run, run-IsValid}

abbrev holding_a_c : Buffer
holding_a_c = record { entries = entry_a ∷ entry_c ∷ []; max_size = 2 }

abbrev in_order : IsOrdered ts_le holding_a_c.entries
in_order = ((refl, tt), (tt, tt))

add_evicts :
    add holding_a_c (entry_b ∷ [])
    ≡ (entry_a ∷ [], record holding_a_c { entries = entry_b ∷ entry_c ∷ [] })
unfolding add push evict sort
add_evicts = refl

merge_skips : (merge holding_a_c (entry_c ∷ entry_b ∷ [])).0.0 ≡ entry_b ∷ []
unfolding merge unique has text_eq sort
merge_skips = refl

add_lem_example :
    ((add holding_a_c (entry_b ∷ [])).0 ++ (add holding_a_c (entry_b ∷ [])).1.entries
      ≡ sort ts_le (holding_a_c.entries ++ entry_b ∷ []))
    × (length (add holding_a_c (entry_b ∷ [])).1.entries
        ≡ min holding_a_c.max_size (length holding_a_c.entries + length (entry_b ∷ [])))
    × ((add holding_a_c (entry_b ∷ [])).1.max_size ≡ holding_a_c.max_size)
add_lem_example = add_lem holding_a_c (entry_b ∷ []) in_order (omega arith)

merge_lem_example :
    (let ((added, removed), b') = merge holding_a_c (entry_c ∷ entry_b ∷ []) in
      All (λ e. has holding_a_c e.id ≡ false) added
      × (removed ++ b'.entries ≡ sort ts_le (holding_a_c.entries ++ added))
      × ((id : Text)
          → any (has_id id) (removed ++ b'.entries)
            ≡ (has holding_a_c id || any (has_id id) (entry_c ∷ entry_b ∷ []))))
merge_lem_example = merge_lem holding_a_c (entry_c ∷ entry_b ∷ []) in_order (omega arith)

run-IsValid_example :
    IsValid
      (run holding_a_c (merge_call (entry_b ∷ []) ∷ resize 1 ∷ add_call (entry_a ∷ []) ∷ wipe ∷ []))
run-IsValid_example =
    run-IsValid holding_a_c
      (merge_call (entry_b ∷ []) ∷ resize 1 ∷ add_call (entry_a ∷ []) ∷ wipe ∷ [])
      (record { ordered = in_order; bounded = omega arith })
