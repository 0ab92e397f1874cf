-- ===== src/Colors/Tests.antt =====
-- Colours of concrete addresses.
use spectrum_knx.Prelude.{[], ◌∷◌, codes}
use spectrum_knx.Colors.{Colors}

abbrev blue : Colors
blue = (codes "1/1/1", codes "#3b82f6") ∷ []
