-- ===== src/App/Button.antt =====
-- bmcd/src/app/event_application.rs and utils/event_listener.rs: the front panel's keys.
pub mod Laws
use tpi_bmcd.Base.{
  ℕ, ◌==◌, Bool, true, false, if◌then◌else◌, Option, none, some, List, [], ◌∷◌, ◌++◌,
}

pub data KeyCode : Type 0 where
  key_1 key_power key_restart other_key : KeyCode

-- What the application is asked to do: `toggle_power_states` with its argument, and `reboot(false)`.
pub data BmcCommand : Type 0 where
  toggle_power : Bool → BmcCommand
  reboot_bmc : BmcCommand

-- The actions that `run_event_listener` registers.
pub data Action : Type 0 where
  press_1 release_1 press_power press_restart : Action

-- The map from a key and a value to an action.
unfoldable pub action_of : KeyCode → ℕ → Option Action
action_of key_1 value =
    if value == 1 then some press_1 else if value == 0 then some release_1 else none
action_of key_power value = if value == 1 then some press_power else none
action_of key_restart value = if value == 1 then some press_restart else none
action_of other_key value = none

-- `waiting` tells whether the task of the last press of the power key still waits for the release, at
-- most three seconds; the requests so far are listed with the newest first.
pub record Buttons : Type 0 where
  pub waiting : Bool
  pub requests : List BmcCommand

-- The task of a press ends with a request.
abbrev ends_press : Bool → Bool → List BmcCommand
ends_press waiting long_press = if waiting then toggle_power long_press ∷ [] else []

-- A press drops the sender of the press before, which ends that one's task as a release does.
unfoldable pub act : Action → Buttons → Buttons
act press_1 b = record { waiting = true; requests = ends_press b.waiting false ++ b.requests }
act release_1 b = record { waiting = false; requests = ends_press b.waiting false ++ b.requests }
act press_power b = record b { requests = toggle_power false ∷ b.requests }
act press_restart b = record b { requests = reboot_bmc ∷ b.requests }

-- A key event of the device with its value, or the three seconds of the task that waits.
pub data Input : Type 0 where
  key : KeyCode → ℕ → Input
  time_up : Input

-- A key event without an action is left alone.
unfoldable pub take_input : Input → Buttons → Buttons
take_input (key code value) b = elim (action_of code value) [
  | none ↦ b
  | some action ↦ act action b
]
take_input time_up b = record {
  waiting = false;
  requests = ends_press b.waiting true ++ b.requests;
}

unfoldable pub take_inputs : List Input → Buttons → Buttons
take_inputs [] b = b
take_inputs (i ∷ is) b = take_inputs is (take_input i b)
