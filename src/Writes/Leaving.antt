-- ===== src/Writes/Leaving.antt =====
-- A status that comes after the panel of frontend/src/components/WriteToBusPanel.tsx has been closed.
use spectrum_knx.Prelude.{ℕ, ◌≡◌, refl, ap, true, none, some, [], ◌∷◌, Text}
use spectrum_knx.Writes.{Panel, Job, is_active, stop_polling, start_polling, refreshed, unmount}
use spectrum_knx.Writes.Kept.{Stopped, stop_polling-Stopped}
use spectrum_knx.Writes.Kept.Steps.{Reach, later, leaves, refreshes, Reach-IsKept}

starts_again :
    (s : Panel) (status : Job)
    → s.poll_ref ≡ none
    → s.intervals ≡ []
    → is_active (some status) ≡ true
    → (refreshed (some status) s).intervals ≡ s.next_interval ∷ []
unfolding refreshed start_polling stop_polling
starts_again s status e f h = rw (h, e) (ap (λ l. s.next_interval ∷ l) f)

-- When the panel is closed while it asks for the status, and a job runs, the answer starts an
-- interval in the panel that has been closed.
pub polls_after_leaving :
    {seconds number : Text → ℕ} (s : Panel) (status : Job)
    → Reach seconds number s
    → is_active (some status) ≡ true
    → Reach seconds number (refreshed (some status) (unmount s))
      × ((unmount s).intervals ≡ [])
      × ((refreshed (some status) (unmount s)).intervals ≡ (unmount s).next_interval ∷ [])
polls_after_leaving s status reach h =
    let stopped : Stopped s (unmount s) =
      unfold unmount in stop_polling-Stopped s s.poll_ref refl (Reach-IsKept reach).known in
    (
      later (later reach leaves) (refreshes (some status)),
      stopped.2,
      starts_again (unmount s) status stopped.3 stopped.2 h,
    )
