-- ===== src/Selections/Kept.antt =====
-- What the small stores keep.
use spectrum_knx.Prelude.{
  get_elem?, some, ℕ, zero, suc, ◌≤◌, ◌≡◌, refl, ap, ◌∙◌, Bool, false, not, List, [], ◌∷◌,
  if◌then◌else◌, length, take, length-take, filter, Text, text_eq, text_eq_refl, includes, get,
  get-put, arith, All-take, All-filter_test, text_eq_comm, Pairwise, Pairwise-filter,
  includes-toggle_text,
}
use spectrum_knx.Selections.{
  DeviceSelection, toggle_device_selected, Overrides, or_open, is_open, toggle_open, push_recent_ga,
  max_recent,
}

-- Ticking a device flips that device and no other.
pub devices-toggle :
    (address d : Text) (s : DeviceSelection)
    → includes (toggle_device_selected address s).devices d
      ≡ (if text_eq address d then not (includes s.devices d) else includes s.devices d)
unfolding toggle_device_selected
devices-toggle address d s = includes-toggle_text s.devices address d

-- Toggling a node flips it, whatever its default, and touches no other node.
pub is_open-toggle :
    (key other : Text) (default_open other_open : Bool) (overrides : Overrides)
    → (is_open key default_open (toggle_open key default_open overrides)
        ≡ not (is_open key default_open overrides))
      × (text_eq key other ≡ false
          → is_open other other_open (toggle_open key default_open overrides)
            ≡ is_open other other_open overrides)
unfolding is_open toggle_open
is_open-toggle key other default_open other_open overrides = (
  ap (λ o. or_open o default_open)
        (get-put key (not (or_open (get overrides key) default_open)) overrides key)
      ∙ rw (text_eq_refl key) (unfold or_open in refl),
  λ h.
      ap (λ o. or_open o other_open)
        (get-put key (not (or_open (get overrides key) default_open)) overrides other)
      ∙ rw h,
)

Pairwise-take :
    (n : ℕ) (l : List Text)
    → Pairwise (λ a b. text_eq a b ≡ false) l
    → Pairwise (λ a b. text_eq a b ≡ false) (take n l)
Pairwise-take zero l h = tt
Pairwise-take (suc n) [] h = tt
Pairwise-take (suc n) (x ∷ l) h = (All-take _ n l h.0, Pairwise-take n l h.1)

-- Added to recent addresses without repeats, the address sent to is the first of them; no address
-- is there twice, and there are at most ten.
pub push_recent_ga_lem :
    (address : Text) (loaded : List Text)
    → Pairwise (λ a b. text_eq a b ≡ false) loaded
    → (get_elem? (push_recent_ga address loaded) 0 ≡ some address)
      × Pairwise (λ a b. text_eq a b ≡ false) (push_recent_ga address loaded)
      × (length (push_recent_ga address loaded) ≤ max_recent)
unfolding push_recent_ga includes
push_recent_ga_lem address loaded d =
    let others = filter (λ a. not (text_eq a address)) loaded in
    (
      refl,
      Pairwise-take max_recent (address ∷ others) (
        All-filter_test _ (λ a. not (text_eq a address)) loaded
            (λ x h. ground (arith, h, text_eq_comm address x)),
        Pairwise-filter _ _ loaded d,
      ),
      omega (arith, length-take max_recent (address ∷ others)),
    )
