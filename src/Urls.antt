-- ===== src/Urls.antt =====
-- Query strings of the frontend (frontend/src/utils/workspaceState.ts, frontend/src/utils/viewUrl.ts). A query is the list of its
-- parameters: the host's URLSearchParams reads what it has written.
pub mod Params
pub mod Workspace
pub mod View
mod Tests
use spectrum_knx.Prelude.{
  ℕ, zero, suc, Bool, true, false, ◌&&◌, ◌||◌, Option, none, some, List, [], ◌∷◌, ◌++◌, ltb, leb,
  ◌==◌, if◌then◌else◌, length, filter, all, Text, get, put,
}

abbrev pub Params : Type 0
Params = List (Text × Text)

-- `if (…) p.set(key, value)`
unfoldable pub set_some : Text → Option Text → Params → Params
set_some key none p = p
set_some key (some value) p = put key value p

unfoldable pub set_all : List (Text × Option Text) → Params → Params
unfolding set_some
set_all [] p = p
set_all ((key, value) ∷ table) p = set_all table (set_some key value p)

-- `join(',')`
unfoldable pub join : List Text → Text
join [] = []
join (x ∷ []) = x
join (x ∷ y ∷ items) = x ++ (b',' ∷ join (y ∷ items))

-- a character before the first part
before_first : ℕ → List Text → List Text
before_first c [] = (c ∷ []) ∷ []
before_first c (part ∷ parts) = (c ∷ part) ∷ parts

-- `split(separator)`
unfoldable pub split : ℕ → Text → List Text
unfolding before_first
split separator [] = [] ∷ []
split separator (c ∷ s) =
    let parts = split separator s in if c == separator then [] ∷ parts else before_first c parts

-- `v ? v.split(',').filter(Boolean) : []`
unfoldable pub list : Option Text → List Text
list none = []
list (some v) = if ltb 0 (length v) then filter (λ s. ltb 0 (length s)) (split b',' v) else []

-- a parameter that is set when the list has items
unfoldable pub list_param : List Text → Option Text
list_param [] = none
list_param (x ∷ items) = some (join (x ∷ items))
