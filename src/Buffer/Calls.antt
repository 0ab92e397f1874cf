-- ===== src/Buffer/Calls.antt =====
-- The invariant of frontend/src/services/telegram-buffer-service.ts over any sequence of calls.
use spectrum_knx.Prelude.{ℕ, ◌≤◌, ◌≡◌, refl, List, [], ◌∷◌, ◌++◌, length, arith, min, IsOrdered}
use spectrum_knx.Telegram.{TelegramEntry, ts_le}
use spectrum_knx.Buffer
use spectrum_knx.Buffer.{Buffer, add, has, unique, merge, set_max_size, evict}
use spectrum_knx.Buffer.Order.{add_lem, add-IsOrdered, evict-append, length-evict, evict-IsOrdered}

pub record IsValid (b : Buffer) : Type 0 where
  pub ordered : IsOrdered ts_le b.entries
  pub bounded : length b.entries ≤ b.max_size

pub add-IsValid : (b : Buffer) (new : List TelegramEntry) → IsValid b → IsValid (add b new).1
add-IsValid b new v = record {
  ordered = add-IsOrdered b new v.ordered;
  bounded =
      omega (arith, (add_lem b new v.ordered v.bounded).1, (add_lem b new v.ordered v.bounded).2);
}

pub merge-IsValid :
    (b : Buffer) (batch : List TelegramEntry) → IsValid b → IsValid (merge b batch).1
unfolding merge
merge-IsValid b batch v = add-IsValid b (unique b batch) v

pub set_max_size-IsValid : (b : Buffer) (size : ℕ) → IsValid b → IsValid (set_max_size b size).1
unfolding set_max_size
set_max_size-IsValid b size v = record {
  ordered = evict-IsOrdered size b.entries v.ordered;
  bounded = omega (arith, length-evict size b.entries);
}

pub data Call : Type 0 where
  add_call : List TelegramEntry → Call
  merge_call : List TelegramEntry → Call
  resize : ℕ → Call
  wipe : Call

-- the buffer after the calls
pub run : Buffer → List Call → Buffer
run b [] = b
run b (add_call new ∷ calls) = run (add b new).1 calls
run b (merge_call batch ∷ calls) = run (merge b batch).1 calls
run b (resize size ∷ calls) = run (set_max_size b size).1 calls
run b (wipe ∷ calls) = run (Buffer.clear b).1 calls

-- Whatever methods are called in whatever order, a buffer in chronological order and within its
-- maximum size stays so.
pub run-IsValid : (b : Buffer) (calls : List Call) → IsValid b → IsValid (run b calls)
unfolding run Buffer.clear
run-IsValid b [] v = v
run-IsValid b (add_call new ∷ calls) v = run-IsValid (add b new).1 calls (add-IsValid b new v)
run-IsValid b (merge_call batch ∷ calls) v =
    run-IsValid (merge b batch).1 calls (merge-IsValid b batch v)
run-IsValid b (resize size ∷ calls) v =
    run-IsValid (set_max_size b size).1 calls (set_max_size-IsValid b size v)
run-IsValid b (wipe ∷ calls) v =
    run-IsValid (Buffer.clear b).1 calls (record { ordered = tt; bounded = omega arith })

-- Changing the maximum size removes the oldest entries that do not fit, and no other.
set_max_size_lem :
    (b : Buffer) (size : ℕ)
    → ((set_max_size b size).0 ++ (set_max_size b size).1.entries ≡ b.entries)
      × (length (set_max_size b size).1.entries ≡ min size (length b.entries))
      × ((set_max_size b size).1.max_size ≡ size)
unfolding set_max_size
set_max_size_lem b size = (evict-append size b.entries, length-evict size b.entries, refl)
