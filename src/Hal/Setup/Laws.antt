-- ===== src/Hal/Setup/Laws.antt =====
-- Which lines the constructors hold.
use tpi_bmcd.Base.{
  ◌≡◌, ◌∙◌, ap, refl, Bool, true, false, if◌then◌else◌, some, List, [], ◌∷◌, ◌++◌, subst, ok,
}
use tpi_bmcd.Base.Assoc.{text_key}
use tpi_bmcd.Hal.Setup.{
  Chip, Lines, Board, open_chip, gpio_output_lines, gpio_output_array, mux_new, hub_new,
  new_pin_controller, new_power_controller, new_controllers, PinLines, PowerLines, chip1_path,
}
use tpi_bmcd.Hal.Setup.Labels.{
  lines_of, Label, fixed, named, labels, After, after-bind, distinct, Distinct, Distinct-of_labels,
}
use tpi_bmcd.Hal.Setup.Steps.{open_chip_lem, output_lem, output_array_lem, four_lines_lem}

module _ (board : Board) where
  new_power_controller_lem :
      (latching : Bool) (g : List Lines)
      → After (new_power_controller board latching g) (λ _ g'.
        labels board g'
        ≡ named "node4-en"
          ∷ named "node3-en"
          ∷ named "node2-en"
          ∷ named "node1-en"
          ∷ labels board g)
  unfolding new_power_controller
  new_power_controller_lem latching g =
      after-bind _ _ _ (open_chip board (chip1_path latching)) g
        (open_chip_lem board (chip1_path latching) g)
        (λ chip g0 (opened, s0). rw s0 (
          four_lines_lem board latching chip opened _ _ "node1-en" "node2-en" "node3-en" "node4-en"
            g
            (λ i1 i2 i3 i4 e1 e2 e3 e4.
              after-bind _ _ _ (gpio_output_array board (chip1_path latching) i1 i2 i3 i4) g
                (output_array_lem board (chip1_path latching) i1 i2 i3 i4 g)
                (λ _ g' held. rw (held, e1, e2, e3, e4) refl))))

  abbrev switch_labels : Bool → List Label
  switch_labels true =
      named "node1-usbotg-dev"
      ∷ named "node2-usbotg-dev"
      ∷ named "node3-usbotg-dev"
      ∷ named "node4-usbotg-dev"
      ∷ fixed 197
      ∷ fixed 193
      ∷ fixed 194
      ∷ fixed 192
      ∷ fixed 195
      ∷ []
  switch_labels false = fixed 194 ∷ fixed 192 ∷ fixed 193 ∷ []

  mux_new_lem :
      (chip : Chip) (g : List Lines)
      → board.chip "/dev/gpiochip1" ≡ some chip
      → After
          (mux_new board "/dev/gpiochip0" "/dev/gpiochip1" chip g)
          (λ _ g'. labels board g' ≡ switch_labels true ++ labels board g)
  unfolding mux_new
  mux_new_lem chip g opened =
      after-bind _ _ _ (gpio_output_lines board "/dev/gpiochip0" (193 ∷ 194 ∷ 192 ∷ 195 ∷ [])) g
        (output_lem board _ _ g)
        (λ _ g1 e1.
          after-bind _ _ _ (gpio_output_lines board "/dev/gpiochip0" (197 ∷ [])) g1
            (output_lem board _ _ g1)
            (λ _ g2 e2.
              four_lines_lem board true chip opened _ _ "node1-usbotg-dev" "node2-usbotg-dev"
                "node3-usbotg-dev" "node4-usbotg-dev" g2
                (λ i1 i2 i3 i4 l1 l2 l3 l4.
                  after-bind _ _ _
                    (gpio_output_lines board "/dev/gpiochip1" (i1 ∷ i2 ∷ i3 ∷ i4 ∷ [])) g2
                    (output_lem board _ _ g2) (λ _ g' e3. rw (e3, e2, e1, l1, l2, l3, l4) refl))))

  hub_new_lem :
      (g : List Lines)
      → After
          (hub_new board "/dev/gpiochip0" g)
          (λ _ g'. labels board g' ≡ switch_labels false ++ labels board g)
  unfolding hub_new
  hub_new_lem g =
      after-bind _ _ _ (gpio_output_lines board "/dev/gpiochip0" (192 ∷ 193 ∷ [])) g
        (output_lem board _ _ g)
        (λ _ g1 e1.
          after-bind _ _ _ (gpio_output_lines board "/dev/gpiochip0" (194 ∷ [])) g1
            (output_lem board _ _ g1) (λ _ g2 e2. rw (e2, e1) refl))

  switch_lem :
      (latching : Bool) (chip : Chip) (g : List Lines)
      → board.chip (chip1_path latching) ≡ some chip
      → After
          ((if latching
              then mux_new board "/dev/gpiochip0" (chip1_path latching) chip
              else hub_new board "/dev/gpiochip0")
            g)
          (λ _ g'. labels board g' ≡ switch_labels latching ++ labels board g)
  switch_lem true chip g opened = mux_new_lem chip g opened
  switch_lem false chip g opened = hub_new_lem g

  abbrev boot_labels : List Label
  boot_labels =
      named "node4-rpiboot"
      ∷ named "node3-rpiboot"
      ∷ named "node2-rpiboot"
      ∷ named "node1-rpiboot"
      ∷ []

  new_pin_controller_lem :
      (latching : Bool) (g : List Lines)
      → After
          (new_pin_controller board latching g)
          (λ _ g'. labels board g' ≡ switch_labels latching ++ (boot_labels ++ labels board g))
  unfolding new_pin_controller
  new_pin_controller_lem latching g =
      after-bind _ _ _ (open_chip board "/dev/gpiochip0") g (open_chip_lem board "/dev/gpiochip0" g)
        (λ _ g0 (_, s0). rw s0 (
          after-bind _ _ _ (open_chip board (chip1_path latching)) g
            (open_chip_lem board (chip1_path latching) g)
            (λ chip g1 (opened, s1). rw s1 (
              four_lines_lem board latching chip opened _ _ "node1-rpiboot" "node2-rpiboot"
                "node3-rpiboot" "node4-rpiboot" g
                (λ i1 i2 i3 i4 e1 e2 e3 e4.
                  after-bind _ _ _ (gpio_output_array board (chip1_path latching) i1 i2 i3 i4) g
                    (output_array_lem board (chip1_path latching) i1 i2 i3 i4 g)
                    (λ _ g' held.
                      after-bind _ _ _
                        (if latching
                          then mux_new board "/dev/gpiochip0" (chip1_path latching) chip
                          else hub_new board "/dev/gpiochip0")
                        g' (switch_lem latching chip g' opened)
                        (λ _ g'' held''. rw (held'', held, e1, e2, e3, e4) refl)))))))

  -- The labels of all lines that are held in the end, the last request first.
  abbrev pub held_labels : Bool → List Label
  held_labels latching =
      named "node4-en"
      ∷ named "node3-en"
      ∷ named "node2-en"
      ∷ named "node1-en"
      ∷ (switch_labels latching ++ boot_labels)

  held :
      (latching : Bool)
      → After (new_controllers board latching []) (λ _ g. labels board g ≡ held_labels latching)
  unfolding new_controllers
  held latching =
      after-bind _ _ _ (new_pin_controller board latching) [] (new_pin_controller_lem latching [])
        (λ _ g1 e1.
          after-bind _ _ _ (new_power_controller board latching) g1
            (new_power_controller_lem latching g1) (λ _ g2 e2. rw (e2, e1) (done latching)))
    where
      done :
          (l : Bool)
          → named "node4-en"
              ∷ named "node3-en"
              ∷ named "node2-en"
              ∷ named "node1-en"
              ∷ (switch_labels l ++ (boot_labels ++ []))
            ≡ held_labels l
      done true = refl
      done false = refl

  held_distinct : (latching : Bool) → distinct (held_labels latching) ≡ true
  held_distinct true = refl
  held_distinct false = refl

  -- When both controllers could be built on a board, for either of the two kinds of boards, the lines
  -- that were requested are exactly the boot and enable lines of the four nodes, found by their names on
  -- the second chip, and the lines of the USB switch, those of the first chip by their numbers; no line
  -- was requested twice.
  pub new_controllers_lem :
      (latching : Bool) (pins : PinLines) (power : PowerLines) (g : List Lines)
      → new_controllers board latching [] ≡ (ok (pins, power), g)
      → (labels board g ≡ held_labels latching) × Distinct (lines_of g)
  new_controllers_lem latching pins power g e =
      let known : labels board g ≡ held_labels latching =
        subst (λ r. After r (λ _ s. labels board s ≡ held_labels latching)) e (held latching) in
      (known, Distinct-of_labels board (lines_of g) (ap distinct known ∙ held_distinct latching))
