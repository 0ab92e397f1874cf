-- ===== src/Colors/Stable.antt =====
-- The colours of frontend/src/utils/seriesColors.ts stay for the session.
use spectrum_knx.Prelude.{
  ◌≡◌, refl, ◌∙◌, Bool, true, false, Option, none, some, List, [], ◌∷◌, if◌then◌else◌, Text,
  text_eq, text_eq_iff, get, get-put,
}
use spectrum_knx.Colors.{Colors, record_color, assign, series_color}

-- the assignments after the charts have asked for some colours
unfoldable pub ask_all : List Text → Colors → Colors
ask_all [] assigned = assigned
ask_all (a ∷ addresses) assigned = ask_all addresses (series_color a assigned).1

recorded :
    (o : Option Text) (a address color : Text) (assigned : Colors)
    → get assigned a ≡ none
    → get assigned address ≡ some color
    → get (record_color o a assigned).1 address ≡ some color
unfolding record_color
recorded none a address color assigned e h = h
recorded (some d) a address color assigned e h =
    get-put a d assigned address ∙ apart (text_eq a address) refl
  where
    apart :
        (c : Bool)
        → text_eq a address ≡ c
        → (if c then some d else get assigned address) ≡ some color
    apart false m = h
    apart true m = let same = (text_eq_iff a address).0 m in cc (e, h, same)

kept :
    (o : Option Text) (a address color : Text) (assigned : Colors)
    → get assigned a ≡ o
    → get assigned address ≡ some color
    → get (assign o a assigned).1 address ≡ some color
unfolding assign
kept (some d) a address color assigned e h = h
kept none a address color assigned e h = recorded _ a address color assigned e h

-- A colour that an address has been given stays its colour, whichever colours are asked for later.
pub series_color_stable :
    (addresses : List Text) (address color : Text) (assigned : Colors)
    → get assigned address ≡ some color
    → (series_color address (ask_all addresses assigned)).0 ≡ some color
unfolding series_color ask_all assign
series_color_stable [] address color assigned h = rw h
series_color_stable (a ∷ addresses) address color assigned h =
    series_color_stable addresses address color (series_color a assigned).1
      (kept (get assigned a) a address color assigned refl h)
