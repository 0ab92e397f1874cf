-- ===== src/Writes/Tests.antt =====
-- The panel that writes to the bus, in a few steps.
use spectrum_knx.Prelude.{
  ◌≡◌, refl, true, some, [], ◌∷◌, codes, decimal, is_digits, pad_start, read_number,
}
use spectrum_knx.Urls.{split}
use spectrum_knx.QuickFilter.Patterns.{trim_text}
use spectrum_knx.Writes.{
  Job, Panel, running, format_dpt, parse_dpt_main, mount, add_row, is_active, refreshed, unmount,
}
use spectrum_knx.Writes.Kept.{IsKept}
use spectrum_knx.Writes.Kept.Steps.{Reach, mounts, later, adds, Reach-IsKept}
use spectrum_knx.Writes.Leaving.{polls_after_leaving}

with_sub : format_dpt (some 5) (some 10) ≡ codes "5.010"
unfolding format_dpt decimal pad_start
with_sub = refl

main_again : parse_dpt_main read_number (codes " 5.010") ≡ some 5
unfolding parse_dpt_main split trim_text is_digits read_number
main_again = refl

abbrev opened_panel : Panel
opened_panel = mount 0 [] []

Reach-IsKept_example : IsKept (add_row opened_panel)
Reach-IsKept_example =
    Reach-IsKept {seconds = read_number} {number = read_number} (later (mounts 0 [] []) adds)

abbrev cyclic : Job
cyclic = record { state = running; address = some (codes "1/2/3") }

cyclic-is_active : is_active (some cyclic) ≡ true
unfolding is_active
cyclic-is_active = refl

polls_after_leaving_example :
    Reach read_number read_number (refreshed (some cyclic) (unmount opened_panel))
    × ((unmount opened_panel).intervals ≡ [])
    × ((refreshed (some cyclic) (unmount opened_panel)).intervals
        ≡ (unmount opened_panel).next_interval ∷ [])
polls_after_leaving_example =
    polls_after_leaving opened_panel cyclic (mounts 0 [] []) cyclic-is_active
