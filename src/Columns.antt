-- ===== src/Columns.antt =====
-- frontend/src/utils/columnOrder.ts: the order of the telegram list's columns. A stored value is
-- what `JSON.parse` gives: no array, or an array of items that may be no strings.
pub mod Normalized
pub mod Order
mod Tests
use spectrum_knx.Prelude.{
  ℕ, zero, suc, ◌+◌, Bool, true, false, not, ◌&&◌, ◌||◌, Option, none, some, List, [], ◌∷◌, ◌++◌,
  if◌then◌else◌, filter, Text, text_eq, includes,
}

-- `indexOf`
unfoldable pub index_of : List Text → Text → Option ℕ
index_of [] t = none
index_of (x ∷ xs) t =
    let rest = index_of xs t in
    if text_eq x t then some 0 else elim rest [ none ↦ none | some i ↦ some (suc i) ]

-- `splice(at, 0, id)`
unfoldable pub insert_at : ℕ → Text → List Text → List Text
insert_at zero id l = id ∷ l
insert_at (suc at) id [] = id ∷ []
insert_at (suc at) id (x ∷ l) = x ∷ insert_at at id l

-- the stored ids that are known, each once
keep_known : List Text → List (Option Text) → List Text → List Text
keep_known defaults [] order = order
keep_known defaults (none ∷ stored) order = keep_known defaults stored order
keep_known defaults (some id ∷ stored) order =
    let kept = keep_known defaults stored (order ++ id ∷ []) in
    let skipped = keep_known defaults stored order in
    if includes defaults id && not (includes order id) then kept else skipped

-- the place after the nearest of the preceding defaults that is in the order; `preceding` has the
-- nearest first
place_after : List Text → List Text → ℕ
place_after order [] = 0
place_after order (d ∷ preceding) = elim (index_of order d) [
  | none ↦ place_after order preceding
  | some k ↦ suc k
]

add_missing : List Text → List Text → List Text → List Text
unfolding place_after
add_missing preceding [] order = order
add_missing preceding (id ∷ defaults) order =
    let present = add_missing (id ∷ preceding) defaults order in
    let placed =
      add_missing (id ∷ preceding) defaults (insert_at (place_after order preceding) id order) in
    if includes order id then present else placed

pub normalize_column_order : Option (List (Option Text)) → List Text → List Text
unfolding keep_known add_missing
normalize_column_order none defaults = add_missing [] defaults []
normalize_column_order (some stored) defaults =
    add_missing [] defaults (keep_known defaults stored [])

pub data Side : Type 0 where
  before : Side
  after : Side

beside : Side → ℕ → ℕ
beside before at = at
beside after at = suc at

-- a target that `includes` has found is found by `indexOf`
splice_beside : Option ℕ → Side → Text → List Text → List Text
unfolding beside
splice_beside none side id l = l
splice_beside (some at) side id l = insert_at (beside side at) id l

pub move_column : List Text → Text → Text → Side → List Text
unfolding splice_beside
move_column order dragged target side =
    let next = filter (λ id. not (text_eq id dragged)) order in
    if text_eq dragged target || not (includes order dragged) || not (includes order target)
    then order
    else splice_beside (index_of next target) side dragged next
