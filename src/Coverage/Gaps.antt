-- ===== src/Coverage/Gaps.antt =====
-- `gaps` and `isCovered` of frontend/src/services/telegram-coverage-service.ts.
use spectrum_knx.Prelude.{
  ℕ, ◌+◌, ◌-◌, ◌≤◌, ◌<◌, max, ◌≡◌, ◌∙◌, Bool, false, not, ◌&&◌, ◌||◌, List, [], ◌∷◌, arith, leb,
  ltb, any-append, Bool-cases, inl, inr, if◌then◌else◌, leb→le, ltb→lt, not-ltb→le,
}
use spectrum_knx.Coverage.{Interval, Coverage, last_gap, gap_loop, gaps}
use spectrum_knx.Coverage.Points.{holds, covers, IsSeparated, covers_before, covers-Follows}

-- what is asked for and not covered, from the cursor on
abbrev wanted : ℕ → ℕ → ℕ → Bool → Bool
wanted p cursor end found = leb cursor p && leb p end && not found

covers-last_gap : (p cursor end : ℕ) → covers (last_gap cursor end) p ≡ wanted p cursor end false
unfolding last_gap
covers-last_gap p cursor end = ground arith

covers-before :
    (p cursor s : ℕ)
    → covers (if ltb cursor s then (cursor, s - 1) ∷ [] else []) p ≡ (leb cursor p && ltb p s)
covers-before p cursor s = ground arith

-- One lemma for each branch of the loop; `found` says whether the intervals after (s, e) cover p.
module _ (p cursor end s e : ℕ) (found : Bool) where
  wanted_skipped :
      e < cursor → wanted p cursor end found ≡ wanted p cursor end (holds p (s, e) || found)
  wanted_skipped h = ground arith

  wanted_stopped :
      end < s
      → (p < s → (holds p (s, e) || found) ≡ false)
      → wanted p cursor end false ≡ wanted p cursor end (holds p (s, e) || found)
  wanted_stopped h none_before = elim (Bool-cases (ltb p s)) [
    | inl k ↦ rw (none_before (ltb→lt p s k))
    | inr k ↦ ground arith
  ]

  wanted_onward :
      s ≤ e
      → cursor ≤ e
      → s ≤ end
      → (p ≤ e → found ≡ false)
      → ((leb cursor p && ltb p s) || wanted p (max cursor (e + 1)) end found)
        ≡ wanted p cursor end (holds p (s, e) || found)
  wanted_onward se ce k none_before = elim (Bool-cases (leb p e)) [
    | inl m ↦ rw (none_before (leb→le p e m)) (ground arith)
    | inr m ↦ ground arith
  ]

  wanted_end :
      s ≤ e
      → cursor ≤ e
      → s ≤ end
      → end < max cursor (e + 1)
      → (p ≤ e → found ≡ false)
      → ((leb cursor p && ltb p s) || wanted p (max cursor (e + 1)) end false)
        ≡ wanted p cursor end (holds p (s, e) || found)
  wanted_end se ce k m none_before = elim (Bool-cases (leb p e)) [
    | inl h ↦ rw (none_before (leb→le p e h)) (ground arith)
    | inr h ↦ ground arith
  ]

covers-gap_loop :
    (p cursor end : ℕ) (l : List Interval)
    → IsSeparated l
    → covers (gap_loop cursor end l) p ≡ wanted p cursor end (covers l p)
unfolding gap_loop
covers-gap_loop p cursor end [] w = covers-last_gap p cursor end
covers-gap_loop p cursor end ((s, e) ∷ rest) w = elim (Bool-cases (ltb e cursor)) [
  | inl h ↦ rw h (
      covers-gap_loop p cursor end rest w.2
      ∙ wanted_skipped p cursor end s e (covers rest p) (ltb→lt e cursor h))
  | inr h ↦ elim (Bool-cases (ltb end s)) [
    | inl k ↦
        rw (h, k)
          (covers-last_gap p cursor end
            ∙ wanted_stopped p cursor end s e (covers rest p) (ltb→lt end s k)
                (covers_before p s e rest w))
    | inr k ↦ elim (Bool-cases (ltb end (max cursor (e + 1)))) [
      | inl m ↦
          rw (h, k, m, any-append (holds p), covers-before, covers-last_gap)
            (wanted_end p cursor end s e (covers rest p) w.0 (not-ltb→le e cursor h)
              (not-ltb→le end s k) (ltb→lt end _ m) (covers-Follows p e rest w.2 w.1))
      | inr m ↦
          rw
            (
              h,
              k,
              m,
              any-append (holds p),
              covers-before,
              covers-gap_loop p (max cursor (e + 1)) end rest w.2,
            )
            (wanted_onward p cursor end s e (covers rest p) w.0 (not-ltb→le e cursor h)
              (not-ltb→le end s k) (covers-Follows p e rest w.2 w.1))
    ]
  ]
]

-- While the covered intervals are in order and apart, a point lies in a gap of the request
-- exactly when it lies in the request and is not covered.
pub covers-gaps :
    (c : Coverage) (start end p : ℕ)
    → IsSeparated c.covered
    → covers (gaps c start end) p ≡ (leb start p && leb p end && not (covers c.covered p))
unfolding gaps
covers-gaps c start end p w = elim (Bool-cases (ltb end start)) [
  | inl e ↦ rw e (ground arith)
  | inr e ↦ rw e (covers-gap_loop p start end c.covered w)
]
