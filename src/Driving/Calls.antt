-- ===== src/Driving/Calls.antt =====
-- internal/httpapi/driving_mode_hooks.go: all that the automation does to the store is calls of the
-- store's methods, whatever the database answers.
use traffic_analysis.Base.{
  ℕ, Bool, true, not, ◌&&◌, ◌||◌, String, Option, ◌==◌, leb, ltb, ◌≡◌, refl, ◌∙◌, if-elim,
  if◌then◌else◌,
}
use traffic_analysis.Value.{Fields}
use traffic_analysis.Store.{Result, ok, err}
use traffic_analysis.Store.Trace.Leads.{Leads, Leads-refl}
use traffic_analysis.Service.{Outside}
use traffic_analysis.Service.Agents.{Crew, Stage}
use traffic_analysis.Service.Agents.History.{run_agent_workflow-Leads}
use traffic_analysis.Driving.{
  Backend, Desk, read_mode, get_driving_mode, set_driving_mode, drive, on_mode, automate,
  created_event_id,
}

module _ (b : Backend) where
  stage-read_mode : (r : Result Bool) (desk : Desk) → (read_mode b r desk).0.stage ≡ desk.stage
  unfolding read_mode
  stage-read_mode (ok enabled) desk = refl
  stage-read_mode (err e) desk = refl

  -- Reading and writing the mode leave the stage alone.
  pub stage-get_driving_mode : (desk : Desk) → (get_driving_mode b desk).0.stage ≡ desk.stage
  unfolding get_driving_mode
  stage-get_driving_mode desk =
      if-elim (λ (r : Desk × Result Bool). r.0.stage ≡ desk.stage) b.has_database _ _
        (λ _. stage-read_mode (b.read desk.calls) _) (λ _. refl)

  pub stage-set_driving_mode :
      (enabled : Bool) (desk : Desk) → (set_driving_mode b enabled desk).0.stage ≡ desk.stage
  unfolding set_driving_mode
  stage-set_driving_mode enabled desk =
      if-elim (λ (r : Desk × Option String). r.0.stage ≡ desk.stage) b.has_database _ _ (λ _. refl)
        (λ _. refl)

  module _ (o : Outside) (c : Crew) where
    abbrev Moves : Stage → Desk → Type 0
    Moves st desk = Leads st.world.store desk.stage.world.store

    drive-Moves :
        (id : String) (st : Stage) (desk : Desk) → desk.stage ≡ st → Moves st (drive b o c id desk)
    unfolding drive
    drive-Moves id st desk same = rw (← same) (run_agent_workflow-Leads o c id desk.stage)

    on_mode-Moves :
        (force : Bool) (id : String) (st : Stage) (r : Desk × Result Bool)
        → r.0.stage ≡ st
        → Moves st (on_mode b o c force id r)
    unfolding on_mode
    on_mode-Moves force id st (desk, err e) same = rw (← same) (Leads-refl desk.stage.world.store)
    on_mode-Moves force id st (desk, ok enabled) same =
        let set = (set_driving_mode b true desk).0 in
        let driven = if force && not enabled then set else desk in
        let kept : driven.stage ≡ st =
          if-elim (λ (d : Desk). d.stage ≡ st) (force && not enabled) set desk
            (λ _. stage-set_driving_mode true desk ∙ same) (λ _. same) in
        if-elim (Moves st) (enabled || force) (drive b o c id driven) desk
          (λ _. drive-Moves id st driven kept)
          (λ _. rw (← same) (Leads-refl desk.stage.world.store))

    -- Whatever was answered, the automation leaves a store that calls lead to.
    pub automate-Leads :
        (path : String) (request : Option Fields) (code : ℕ) (response : Option Fields)
        (desk : Desk)
        → Leads desk.stage.world.store
            (automate b o c path request code response desk).stage.world.store
    unfolding automate
    automate-Leads path request code response desk =
        if-elim (Moves desk.stage)
          (leb 200 code && ltb code 300 && not (created_event_id b o c request response == "")) _
          desk
          (λ _.
            on_mode-Moves _ _ desk.stage (get_driving_mode b desk) (stage-get_driving_mode desk))
          (λ _. Leads-refl desk.stage.world.store)
