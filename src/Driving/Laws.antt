-- ===== src/Driving/Laws.antt =====
-- internal/httpapi/driving_mode_hooks.go: what is run after a request that created an event.
use traffic_analysis.Base.{
  ℕ, Bool, true, false, not, ◌&&◌, ◌||◌, String, Option, ◌==◌, leb, ltb, ◌≡◌, refl, ap, ◌∙◌,
  if-true, if-false, if◌then◌else◌,
}
use traffic_analysis.Value.{Fields}
use traffic_analysis.Service.{Outside}
use traffic_analysis.Service.Agents.{Crew}
use traffic_analysis.Service.Agents.Workflow.{run_agent_workflow}
use traffic_analysis.Driving.{
  Backend, Desk, should_auto_drive_created_event, created_event_id, get_driving_mode,
  set_driving_mode, drive, on_mode, automate,
}

module _ (b : Backend) (o : Outside) (c : Crew) (no_database : b.has_database ≡ false) where
  on_mode_off :
      (force : Bool) (id : String) (desk : Desk)
      → (desk.driving || force) ≡ false
      → on_mode b o c force id (get_driving_mode b desk) ≡ desk
  unfolding on_mode get_driving_mode
  on_mode_off force id desk off =
      ap (on_mode b o c force id) (if-false _ _ no_database) ∙ if-false _ _ off

  switched :
      (desk : Desk) (force mode : Bool)
      → desk.driving ≡ mode
      → (mode || force) ≡ true
      → (if force && not mode then (set_driving_mode b true desk).0 else desk)
        ≡ record desk { driving = true }
  unfolding set_driving_mode
  switched desk true true same on = ap (λ m. record desk { driving = m }) same
  switched desk true false same on =
      ap (λ (r : Desk × Option String). r.0) (if-false _ _ no_database)
  switched desk false true same on = ap (λ m. record desk { driving = m }) same
  switched desk false false same on = cc

  on_mode_on :
      (force : Bool) (id : String) (desk : Desk)
      → (desk.driving || force) ≡ true
      → on_mode b o c force id (get_driving_mode b desk)
        ≡ record desk { driving = true; stage = (run_agent_workflow o c id desk.stage).0 }
  unfolding on_mode get_driving_mode drive
  on_mode_on force id desk on =
      ap (on_mode b o c force id) (if-false _ _ no_database)
      ∙ if-true _ _ on
      ∙ ap (drive b o c id) (switched desk force desk.driving refl on)

  module _ (path : String) (request response : Option Fields) (code : ℕ) (desk : Desk)
      (answered : (leb 200 code
          && ltb code 300
          && not (created_event_id b o c request response == ""))
        ≡ true) where
    abbrev pub forced : Bool
    forced = should_auto_drive_created_event path request

    abbrev pub created_id : String
    created_id = created_event_id b o c request response

    -- Without a database, and after an answer of success that names an event: where driving mode is
    -- off and the request does not ask for it, nothing is run; where it is on or asked for, the
    -- workflow is run for the event, and the mode is on afterwards.
    pub automate-driving :
        ((desk.driving || forced) ≡ false → automate b o c path request code response desk ≡ desk)
        × ((desk.driving || forced) ≡ true
            → automate b o c path request code response desk ≡ record desk {
              driving = true;
              stage = (run_agent_workflow o c created_id desk.stage).0;
            })
    unfolding automate
    automate-driving = (
      λ off. if-true _ _ answered ∙ on_mode_off forced created_id desk off,
      λ on. if-true _ _ answered ∙ on_mode_on forced created_id desk on,
    )
