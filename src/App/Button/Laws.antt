-- ===== src/App/Button/Laws.antt =====
-- One press of the power key, one request.
use tpi_bmcd.Base.{ℕ, ◌+◌, ◌≡◌, ◌==◌, Bool, if◌then◌else◌, List, [], ◌∷◌, length, arith}
use tpi_bmcd.App.Button.{
  KeyCode, key_1, key_power, key_restart, other_key, Buttons, Input, key, time_up, action_of, act,
  take_input, take_inputs,
}

abbrev pub is_press : KeyCode → ℕ → ℕ
is_press key_1 value = if value == 1 then 1 else 0
is_press key_power value = if value == 1 then 1 else 0
is_press key_restart value = if value == 1 then 1 else 0
is_press other_key value = 0

abbrev pub presses : List Input → ℕ
presses [] = 0
presses (key code value ∷ is) = is_press code value + presses is
presses (time_up ∷ is) = presses is

-- The request that is still to come.
abbrev pub owed : Bool → ℕ
owed waiting = if waiting then 1 else 0

abbrev pub presses_of : Input → ℕ
presses_of (key code value) = is_press code value
presses_of time_up = 0

balance :
    (i : Input) (b : Buttons)
    → let b' = take_input i b in
      length b'.requests + owed b'.waiting ≡ length b.requests + owed b.waiting + presses_of i
unfolding take_input action_of act
balance (key key_1 value) b = ground arith
balance (key key_power value) b = ground arith
balance (key key_restart value) b = ground arith
balance (key other_key value) b = ground arith
balance time_up b = ground arith

-- Whatever the order of key events and timeouts: every press of a bound key leads to one request, made
-- or still owed by the one task that waits; releases, repetitions, other keys and timeouts add none.
pub requests-take_inputs :
    (is : List Input) (b : Buttons)
    → let b' = take_inputs is b in
      length b'.requests + owed b'.waiting ≡ length b.requests + owed b.waiting + presses is
unfolding take_inputs
requests-take_inputs [] b = omega arith
requests-take_inputs (key code value ∷ is) b =
    omega
      (arith, requests-take_inputs is (take_input (key code value) b), balance (key code value) b)
requests-take_inputs (time_up ∷ is) b =
    omega (arith, requests-take_inputs is (take_input time_up b), balance time_up b)
