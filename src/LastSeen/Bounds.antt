-- ===== src/LastSeen/Bounds.antt =====
-- How long the list of frontend/src/components/LastSeenOverlay.tsx gets: what may happen to the panel
-- as a step relation, with a bound on the limits that the user chooses.
use mathlib.Core.Path.{subst}
use spectrum_knx.Prelude.{
  ℕ, ◌≤◌, ◌≡◌, refl, Bool, not, ◌&&◌, ◌==◌, Option, none, some, List, [], ◌∷◌, ◌++◌, length, any,
  all, includes, length-take, Text, arith, All, All-append, Bool-cases, inl, inr,
}
use spectrum_knx.Telegram.{Telegram}
use spectrum_knx.Urls.Workspace.{LastSeenMode}
use spectrum_knx.LastSeen.{
  Request, LastSeen, fetch_data, answered, set_auto_refresh, is_selected, same_mode, is_same,
  shown_with, arrive, after_change, set_limit, handle_mode_change, goto_address,
}

module _ (get_time : Text → ℕ) (most : ℕ) where
  -- The backend keeps to the limit of the request that it answers.
  pub data Step : LastSeen → LastSeen → Type 0 where
    telegram : {s : LastSeen} (t : Telegram) → Step s (arrive get_time t s)
    switched : {s : LastSeen} (live : Bool) → Step s (set_auto_refresh live s)
    -- a send to the bus, or a write, fetches a little later
    refreshed : {s : LastSeen} → Step s (fetch_data s)
    limited :
        {s : LastSeen} (latest : Option Telegram) (limit : ℕ)
        → limit ≤ most
        → Step s (set_limit get_time latest limit s)
    mode_changed :
        {s : LastSeen} (latest : Option Telegram) (mode : LastSeenMode) (known : List Text)
        → Step s (handle_mode_change get_time latest mode known s)
    gone_to :
        {s : LastSeen} (latest : Option Telegram) (address : Text) (mode : LastSeenMode)
        → Step s (goto_address get_time latest address mode s)
    answer :
        {s : LastSeen} (before : List Request) (r : Request) (after : List Request)
        (telegrams : List Telegram)
        → s.under_way ≡ before ++ r ∷ after
        → length telegrams ≤ r.limit
        → Step s (answered (some telegrams) (record s { under_way = before ++ after }))
    failure :
        {s : LastSeen} (before : List Request) (r : Request) (after : List Request)
        → s.under_way ≡ before ++ r ∷ after
        → Step s (answered none (record s { under_way = before ++ after }))

  pub data Steps (s : LastSeen) : LastSeen → Type 0 where
    start : Steps s s
    next : {u v : LastSeen} → Steps s u → Step u v → Steps s v

  pub record IsBounded (s : LastSeen) : Type 0 where
    pub limit : s.limit ≤ most
    pub requests : All (λ r. r.limit ≤ most) s.under_way
    pub telegrams : length s.telegrams ≤ most

  fetch_data-IsBounded : (s : LastSeen) → IsBounded s → IsBounded (fetch_data s)
  unfolding fetch_data
  fetch_data-IsBounded s b = elim (Bool-cases (length s.selected_addresses == 0)) [
    | inl h ↦ rw h b
    | inr h ↦ rw h (record {
      limit = b.limit;
      requests = All-append _ s.under_way _ b.requests (b.limit, tt);
      telegrams = b.telegrams;
    })
  ]

  shown_with_le :
      (limit : ℕ) (t : Telegram) (telegrams : List Telegram)
      → limit ≤ most
      → length telegrams ≤ most
      → length (shown_with get_time limit t telegrams) ≤ most
  unfolding shown_with
  shown_with_le limit t telegrams h g = elim (Bool-cases (any (is_same get_time t) telegrams)) [
    | inl e ↦ rw e g
    | inr e ↦ rw e (omega (arith, length-take limit (t ∷ telegrams), h))
  ]

  arrive-IsBounded : (t : Telegram) (s : LastSeen) → IsBounded s → IsBounded (arrive get_time t s)
  unfolding arrive
  arrive-IsBounded t s b = elim (Bool-cases (is_selected s t && not s.auto_refresh)) [
    | inl h ↦ rw h (record { limit = b.limit; requests = b.requests; telegrams = b.telegrams })
    | inr h ↦ elim (Bool-cases (is_selected s t)) [
      | inl e ↦
          rw (h, e)
            (record {
              limit = b.limit;
              requests = b.requests;
              telegrams = shown_with_le s.limit t s.telegrams b.limit b.telegrams;
            })
      | inr e ↦ rw (h, e) b
    ]
  ]

  after_change-IsBounded :
      (latest : Option Telegram) (s : LastSeen)
      → IsBounded s
      → IsBounded (after_change get_time latest s)
  unfolding after_change
  after_change-IsBounded none s b = fetch_data-IsBounded s b
  after_change-IsBounded (some t) s b = arrive-IsBounded t _ (fetch_data-IsBounded s b)

  -- what is not bounded may be set
  with_rest :
      {s u : LastSeen}
      → s.limit ≡ u.limit
      → s.under_way ≡ u.under_way
      → s.telegrams ≡ u.telegrams
      → IsBounded s
      → IsBounded u
  with_rest e f g b = record {
    limit = subst (λ n. n ≤ most) e b.limit;
    requests = subst (All (λ r. r.limit ≤ most)) f b.requests;
    telegrams = subst (λ l. length l ≤ most) g b.telegrams;
  }

  set_auto_refresh-IsBounded :
      (live : Bool) (s : LastSeen) → IsBounded s → IsBounded (set_auto_refresh live s)
  unfolding set_auto_refresh
  set_auto_refresh-IsBounded live s b = elim (Bool-cases (live && not s.was_live)) [
    | inl h ↦ rw h (
        with_rest refl refl refl
          (fetch_data-IsBounded (record s { auto_refresh = live }) (with_rest refl refl refl b)))
    | inr h ↦ rw h (with_rest refl refl refl b)
  ]

  set_limit-IsBounded :
      (latest : Option Telegram) (limit : ℕ) (s : LastSeen)
      → limit ≤ most
      → IsBounded s
      → IsBounded (set_limit get_time latest limit s)
  unfolding set_limit
  set_limit-IsBounded latest limit s h b = elim (Bool-cases (limit == s.limit)) [
    | inl e ↦ rw e b
    | inr e ↦ rw e (
        after_change-IsBounded latest (record s { limit = limit })
          (record { limit = h; requests = b.requests; telegrams = b.telegrams }))
  ]

  handle_mode_change-IsBounded :
      (latest : Option Telegram) (mode : LastSeenMode) (known : List Text) (s : LastSeen)
      → IsBounded s
      → IsBounded (handle_mode_change get_time latest mode known s)
  unfolding handle_mode_change
  handle_mode_change-IsBounded latest mode known s b =
      elim (Bool-cases (all (includes known) s.selected_addresses)) [
        | inr h ↦ rw h (after_change-IsBounded latest _ (with_rest refl refl refl b))
        | inl h ↦ elim (Bool-cases (same_mode mode s.mode)) [
          | inl e ↦ rw (h, e) (with_rest refl refl refl b)
          | inr e ↦ rw (h, e) (after_change-IsBounded latest _ (with_rest refl refl refl b))
        ]
      ]

  without_request :
      (before : List Request) (r : Request) (after : List Request)
      → All (λ r. r.limit ≤ most) (before ++ r ∷ after)
      → (r.limit ≤ most) × All (λ r. r.limit ≤ most) (before ++ after)
  without_request [] r after h = h
  without_request (q ∷ before) r after h =
      let rest = without_request before r after h.1 in (rest.0, (h.0, rest.1))

  step-IsBounded : {s u : LastSeen} → Step s u → IsBounded s → IsBounded u
  unfolding goto_address answered
  step-IsBounded (telegram t) b = arrive-IsBounded t _ b
  step-IsBounded (switched live) b = set_auto_refresh-IsBounded live _ b
  step-IsBounded refreshed b = fetch_data-IsBounded _ b
  step-IsBounded (limited latest limit h) b = set_limit-IsBounded latest limit _ h b
  step-IsBounded (mode_changed latest mode known) b =
      handle_mode_change-IsBounded latest mode known _ b
  step-IsBounded (gone_to latest address mode) b =
      after_change-IsBounded latest _ (with_rest refl refl refl b)
  step-IsBounded (answer before r after telegrams e h) b =
      let rest = without_request before r after (subst (All (λ r. r.limit ≤ most)) e b.requests) in
      record { limit = b.limit; requests = rest.1; telegrams = omega (arith, h, rest.0) }
  step-IsBounded (failure before r after e) b =
      let rest = without_request before r after (subst (All (λ r. r.limit ≤ most)) e b.requests) in
      record { limit = b.limit; requests = rest.1; telegrams = b.telegrams }

  -- Whatever happens to the panel, its list is never longer than the greatest limit chosen, as long
  -- as the backend keeps to the limit of the request that it answers.
  pub steps-IsBounded : {s u : LastSeen} → IsBounded s → Steps s u → IsBounded u
  steps-IsBounded b start = b
  steps-IsBounded b (next steps step) = step-IsBounded step (steps-IsBounded b steps)
