-- ===== src/Coverage/Refines.antt =====
-- The service of frontend/src/services/telegram-coverage-service.ts as what its clients see of it: a
-- set of times, with the time from which telegrams arrive live.
use mathlib.Core.Path.{fun_ext}
use spectrum_knx.Prelude.{
  ℕ, ◌≡◌, refl, ap, ◌∙◌, Bool, false, not, ◌&&◌, ◌||◌, Option, none, some, List, [], ◌∷◌, leb,
  arith,
}
use spectrum_knx.Coverage
use spectrum_knx.Coverage.{
  Coverage, anchor, clip_live, add_covered, gaps, is_covered, trim, extend_live, close_live,
  Interval,
}
use spectrum_knx.Coverage.Points.{covers, IsSeparated}
use spectrum_knx.Coverage.Merge.{covers-add_covered}
use spectrum_knx.Coverage.Gaps.{covers-gaps}
use spectrum_knx.Coverage.Live.{
  Call, add, trim_to, extend, close, wipe, run, run-IsSeparated, covers-trim, covers-extend_live,
}

pub record TimeSet : Type 0 where
  pub holds : ℕ → Bool
  pub live_since : Option ℕ

abbrev between : ℕ → ℕ → ℕ → Bool
between start end p = leb start p && leb p end

-- the call, on a set of times
unfoldable pub replay_call : Call → TimeSet → TimeSet
replay_call (add start end) t = record t { holds = λ p. t.holds p || between start end p }
replay_call (trim_to floor) t = record {
  holds = λ p. t.holds p && leb floor p;
  live_since = clip_live floor t.live_since;
}
replay_call (extend ts) t = record {
  holds = λ p. t.holds p || between (anchor t.live_since ts) ts p;
  live_since = some ts;
}
replay_call close t = record t { live_since = none }
replay_call wipe t = record { holds = λ p. false; live_since = none }

unfoldable pub replay : List Call → TimeSet → TimeSet
replay [] t = t
replay (c ∷ calls) t = replay calls (replay_call c t)

abbrev pub times_of : Coverage → TimeSet
times_of c = record { holds = covers c.covered; live_since = c.live_start }

live_start-add_covered :
    (c : Coverage) (start end : ℕ) → (add_covered c start end).live_start ≡ c.live_start
unfolding add_covered
live_start-add_covered c start end = ground arith

times_of-add_covered :
    (c : Coverage) (start end : ℕ)
    → times_of (add_covered c start end) ≡ replay_call (add start end) (times_of c)
unfolding replay_call
times_of-add_covered c start end =
    let h = fun_ext (covers-add_covered c start end) in
    ap (λ f. record { holds = f; live_since = (add_covered c start end).live_start }) h
    ∙ ap (λ l. record { holds = (replay_call (add start end) (times_of c)).holds; live_since = l })
        (live_start-add_covered c start end)

times_of-trim :
    (c : Coverage) (floor : ℕ) → times_of (trim c floor) ≡ replay_call (trim_to floor) (times_of c)
unfolding replay_call trim
times_of-trim c floor =
    ap (λ f. record { holds = f; live_since = clip_live floor c.live_start })
      (fun_ext (covers-trim c floor))

times_of-extend_live :
    (c : Coverage) (ts : ℕ) → times_of (extend_live c ts) ≡ replay_call (extend ts) (times_of c)
unfolding replay_call extend_live
times_of-extend_live c ts =
    ap (λ f. record { holds = f; live_since = some ts }) (fun_ext (covers-extend_live c ts))

times_of-run :
    (calls : List Call) (c : Coverage) → times_of (run c calls) ≡ replay calls (times_of c)
unfolding run replay
times_of-run [] c = refl
times_of-run (add start end ∷ calls) c =
    times_of-run calls (add_covered c start end)
    ∙ ap (replay calls) (times_of-add_covered c start end)
times_of-run (trim_to floor ∷ calls) c =
    times_of-run calls (trim c floor) ∙ ap (replay calls) (times_of-trim c floor)
times_of-run (extend ts ∷ calls) c =
    times_of-run calls (extend_live c ts) ∙ ap (replay calls) (times_of-extend_live c ts)
times_of-run (close ∷ calls) c =
    times_of-run calls (close_live c)
    ∙ ap (replay calls) (unfold close_live in unfold replay_call in refl)
times_of-run (wipe ∷ calls) c =
    times_of-run calls (Coverage.clear c)
    ∙ ap (replay calls) (unfold Coverage.clear in unfold replay_call in refl)

-- From intervals that are sorted, nonempty and apart, whatever methods are called in whatever
-- order: the intervals stay so, the service stands for the set of times that the same calls make of
-- a plain set, and the gaps that it answers are the times of the window that this set has not.
pub run_refines :
    (calls : List Call) (c : Coverage) (start end p : ℕ)
    → IsSeparated c.covered
    → (times_of (run c calls) ≡ replay calls (times_of c))
      × IsSeparated (run c calls).covered
      × (covers (gaps (run c calls) start end) p
          ≡ (between start end p && not ((replay calls (times_of c)).holds p)))
run_refines calls c start end p w =
    let kept = run-IsSeparated c calls w in
    (
      times_of-run calls c,
      kept,
      covers-gaps (run c calls) start end p kept
          ∙ ground (arith, ap (λ (t : TimeSet). t.holds p) (times_of-run calls c)),
    )
