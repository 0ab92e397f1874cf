-- ===== src/Shell/BackForward.antt =====
-- The address bar under the browser's Back and Forward, as frontend/src/App.tsx keeps it.
use spectrum_knx.Prelude.{
  ℕ, ◌≡◌, refl, ap, sym, ◌∙◌, true, false, if◌then◌else◌, Text, Bool-cases, inl, inr,
}
use spectrum_knx.Urls.{Params}
use spectrum_knx.Urls.Workspace.{
  WorkspaceView, none_open, visualizer, lastseen, statistics, building, database,
  build_monitor_search, workspace_from_search,
}
use spectrum_knx.Urls.Workspace.Layout.{same_search}
use spectrum_knx.Urls.Workspace.Layout.Pane.{same_search_refl, eq_of_same_search}
use spectrum_knx.Shell.{
  Shell, untouched, workspace_view, panel_view, view_panel, is_database, workspace_of,
  write_address, on_pop_state,
}

view_of_panel :
    (v : WorkspaceView) → (if is_database v then database else panel_view (view_panel v)) ≡ v
unfolding panel_view view_panel
view_of_panel none_open = refl
view_of_panel visualizer = refl
view_of_panel lastseen = refl
view_of_panel statistics = refl
view_of_panel building = refl
view_of_panel database = refl

-- nothing is written when the address bar says it already
write_synced :
    (s : Shell)
    → build_monitor_search (workspace_of s) ≡ s.synced_search
    → write_address s ≡ (untouched, record s { replaces_next = false })
unfolding write_address
write_synced s e =
    let same : same_search (build_monitor_search (workspace_of s)) s.synced_search ≡ true =
      ap (same_search _) (sym e) ∙ same_search_refl _ in
    rw same refl

module _ (number : Text → ℕ) (search : Params) (s : Shell) where
  abbrev pub gone_to : Shell
  gone_to = on_pop_state number search s

  workspace_of-on_pop_state : workspace_of gone_to ≡ workspace_from_search number search
  unfolding workspace_of on_pop_state workspace_view
  workspace_of-on_pop_state =
      let ws = workspace_from_search number search in
      ap (λ v. record ws { view = v }) (view_of_panel ws.view)

  -- Going back or forward to an address puts the panels into the workspace that the address
  -- stands for, and the write that follows leaves the browser's history as it is.
  pub back_forward :
      (workspace_of gone_to ≡ workspace_from_search number search)
      × (write_address gone_to ≡ (untouched, record gone_to { replaces_next = false }))
  back_forward =
      let e : build_monitor_search (workspace_of gone_to) ≡ gone_to.synced_search =
        ap build_monitor_search workspace_of-on_pop_state ∙ unfold on_pop_state in refl in
      (workspace_of-on_pop_state, write_synced gone_to e)

module _ (s : Shell) where
  abbrev pub written : Shell
  written = (write_address s).1

  workspace_of-write_address : workspace_of written ≡ workspace_of s
  unfolding write_address
  workspace_of-write_address =
      elim (Bool-cases (same_search (build_monitor_search (workspace_of s)) s.synced_search)) [
        | inl h ↦ rw (written, h) (unfold workspace_of in unfold workspace_view in refl)
        | inr h ↦ rw (written, h) (unfold workspace_of in unfold workspace_view in refl)
      ]

  synced-write_address :
      (written.synced_search ≡ build_monitor_search (workspace_of s))
      × (written.replaces_next ≡ false)
  unfolding write_address
  synced-write_address =
      elim (Bool-cases (same_search (build_monitor_search (workspace_of s)) s.synced_search)) [
        | inl h ↦ rw (written, h) (sym (eq_of_same_search _ _ h), refl)
        | inr h ↦ rw (written, h) (refl, refl)
      ]

  -- After a write the address bar says what the workspace is, and another write changes nothing.
  pub write_address_lem :
      (written.synced_search ≡ build_monitor_search (workspace_of s))
      × (workspace_of written ≡ workspace_of s)
      × (write_address written ≡ (untouched, written))
  write_address_lem =
      let e : build_monitor_search (workspace_of written) ≡ written.synced_search =
        ap build_monitor_search workspace_of-write_address ∙ sym synced-write_address.0 in
      (
        synced-write_address.0,
        workspace_of-write_address,
        write_synced written e
            ∙ ap (λ b. (untouched, record written { replaces_next = b }))
                (sym synced-write_address.1),
      )
