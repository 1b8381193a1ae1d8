-- ===== src/App/Slots/Laws.antt =====
-- Which slots are activated after a call, and that the power lines agree with the database.
use tpi_bmcd.Base.{
  ℕ, zero, suc, ◌<◌, ◌≡◌, ◌≢◌, refl, ap, Bool, true, not, ◌&&◌, ◌==◌, ==_iff, all_below,
  all_below_sound, if◌then◌else◌, bit_and, some, List, [], ◌∷◌, Result, ok, arith, Bool-cases, inl,
  inr,
}
use tpi_bmcd.Base.Bits.{
  bit, not_u8, bit-le-one, bit-bit_and, bit-bit_or, bit-not_u8, bit-nibble, bit_and-lt_nibble,
  nibble-bit_and-lt, bit_or-lt_nibble,
}
use tpi_bmcd.Hal.Device.{Env, Trace, Fault, level, enable, did, read_clock}
use tpi_bmcd.Hal.Helpers.{bit_iterator}
use tpi_bmcd.Hal.Power.{power_led, set_power_node}
use tpi_bmcd.Hal.Power.Order.{level-set_power_node}
use tpi_bmcd.App.State.{App, NodeInfo, modify_at}
use tpi_bmcd.App.Slots.{
  stamp, merge_state, stamp_all, update_power_on_times, activate_slot, toggle_power_states,
}

-- Each bit of the new state is the requested one where the mask selects it, and else the old one.
pub bit-merge_state :
    (i state node_states mask : ℕ)
    → i < 8
    → mask < 256
    → bit i (merge_state state node_states mask)
      ≡ (if bit i mask == 1 then bit i node_states else bit i state)
unfolding merge_state
bit-merge_state i state s m h p = ground (
  arith,
  bit-bit_or i (bit_and state (not_u8 m)) (bit_and s m),
  bit-bit_and i state (not_u8 m),
  bit-bit_and i s m,
  bit-not_u8 i m,
  bit-le-one i m,
  bit-le-one i s,
  bit-le-one i state,
)

-- A nibble stays a nibble.
merge_state-lt : (state s m : ℕ) → state < 16 → m < 16 → merge_state state s m < 16
unfolding merge_state
merge_state-lt state s m p q =
    bit_or-lt_nibble _ _ (nibble-bit_and-lt state (not_u8 m) p) (bit_and-lt_nibble s m q)

-- With the mask of all four nodes the new state is the requested one.
full_mask : all_below 16 (λ x. merge_state x 15 15 == 15 && merge_state x 0 15 == 0) ≡ true
unfolding all_below merge_state
full_mask = refl

merge_state_full : (x : ℕ) → x < 16 → (merge_state x 15 15 ≡ 15) × (merge_state x 0 15 ≡ 0)
merge_state_full x h = ground (
  arith,
  all_below_sound (λ y. merge_state y 15 15 == 15 && merge_state y 0 15 == 0) 16 x full_mask,
)

-- The enable line of each node agrees with the node's bit in the database.
abbrev Agrees : ℕ → App → Type 0
Agrees i a = level (enable i) a.trace ≡ some (bit i a.db.activated_nodes)

abbrev pub InSync : App → Type 0
InSync a = Agrees 0 a × Agrees 1 a × Agrees 2 a × Agrees 3 a

module _ (env : Env) where
  -- The infos and the trace after the clock readings of `update_power_on_times`, which cannot fail.
  abbrev pub stamped : ℕ → List (ℕ × ℕ) → List NodeInfo → Trace → List NodeInfo × Trace
  stamped activated [] infos t = (infos, t)
  stamped activated ((idx, v) ∷ us) infos t =
      stamped activated us (modify_at idx (stamp activated idx v (env.timestamp t)) infos)
        (did read_clock ∷ t)

  stamp_all_run :
      (activated : ℕ) (us : List (ℕ × ℕ)) (infos : List NodeInfo) (a : App)
      → stamp_all env activated us infos a ≡ (
        ok (stamped activated us infos a.trace).0,
        record a { trace = (stamped activated us infos a.trace).1 },
      )
  unfolding stamp_all
  stamp_all_run activated [] infos a = refl
  stamp_all_run activated ((idx, v) ∷ us) infos a =
      stamp_all_run activated us
        (modify_at idx (stamp activated idx v (env.timestamp a.trace)) infos)
        (record a { trace = did read_clock ∷ a.trace })

  level-stamped :
      (activated : ℕ) (us : List (ℕ × ℕ)) (infos : List NodeInfo) (t : Trace) (i : ℕ)
      → level (enable i) (stamped activated us infos t).1 ≡ level (enable i) t
  unfolding level
  level-stamped activated [] infos t i = refl
  level-stamped activated ((idx, v) ∷ us) infos t i =
      level-stamped activated us _ (did read_clock ∷ t) i

  module _ (s m : ℕ) (a : App) where
    abbrev pub stamps : List NodeInfo × Trace
    stamps = stamped a.db.activated_nodes (bit_iterator s m) a.db.node_infos a.trace

    abbrev pub new_state : ℕ
    new_state = merge_state a.db.activated_nodes s m

    abbrev pub after_led : Trace
    after_led = (power_led env (not (new_state == 0)) stamps.1).1

    -- The whole of a call with a mask: the database is written before the nodes are powered.
    pub activate_slot_run :
        m ≢ 0
        → activate_slot env s m a ≡ (
          (set_power_node env s m after_led).0,
          record a {
            db = record a.db { activated_nodes = new_state; node_infos = stamps.0 };
            trace = (set_power_node env s m after_led).1;
          },
        )
    unfolding activate_slot update_power_on_times
    activate_slot_run h = elim (Bool-cases (m == 0)) [
      | inl e ↦ absurd (h ((==_iff m 0).0 e))
      | inr e ↦ rw (e, stamp_all_run a.db.activated_nodes (bit_iterator s m) a.db.node_infos a) refl
    ]

    level-after_led : (i : ℕ) → level (enable i) after_led ≡ level (enable i) a.trace
    unfolding power_led level
    level-after_led i =
        ground
          (arith, level-stamped a.db.activated_nodes (bit_iterator s m) a.db.node_infos a.trace i)

  -- A call with a mask of one byte that is not zero stores, among the eight bits, the requested state of
  -- each that the mask selects and keeps the others, also where powering fails on the way. Of the rest of the database only the node infos change.
  pub activate_slot_stores :
      (s m i : ℕ) (a : App)
      → m ≢ 0
      → m < 256
      → i < 8
      → let db = (activate_slot env s m a).1.db in
        (bit i db.activated_nodes ≡ (if bit i m == 1 then bit i s else bit i a.db.activated_nodes))
        × (db.usb_config ≡ a.db.usb_config)
        × (db.node1_usb ≡ a.db.node1_usb)
        × (db.cooling ≡ a.db.cooling)
  activate_slot_stores s m i a h p q =
      rw (activate_slot_run s m a h)
        (bit-merge_state i a.db.activated_nodes s m q p, refl, refl, refl)

  -- A mask of four bits keeps a stored state of four bits within four bits, whether the call fails or
  -- not.
  pub activate_slot-lt_nibble :
      (s m : ℕ) (a : App)
      → a.db.activated_nodes < 16
      → m < 16
      → (activate_slot env s m a).1.db.activated_nodes < 16
  activate_slot-lt_nibble s zero a p q = unfold activate_slot in p
  activate_slot-lt_nibble s (suc m) a p q =
      rw (activate_slot_run s (suc m) a (λ e. cc))
        (merge_state-lt a.db.activated_nodes s (suc m) p q)

  activate_slot-Agrees :
      (s m i : ℕ) (a : App)
      → m ≢ 0
      → m < 256
      → i < 4
      → (i < 4 → bit i m ≢ 1 → Agrees i a)
      → (activate_slot env s m a).0 ≡ ok tt
      → Agrees i (activate_slot env s m a).1
  activate_slot-Agrees s m i a h p q old e = rw (activate_slot_run s m a h) (
      ground (
        arith,
        level-set_power_node env s m (after_led s m a) i (rw (activate_slot_run s m a h) at e),
        bit-merge_state i a.db.activated_nodes s m,
        level-after_led s m a i,
        old q,
      ))

  -- Where power lines and database agree on the four nodes, a call with a mask of one byte that is not
  -- zero, and that succeeds, leaves them in agreement.
  pub activate_slot-InSync :
      (s m : ℕ) (a : App)
      → m ≢ 0
      → m < 256
      → InSync a
      → (activate_slot env s m a).0 ≡ ok tt
      → InSync (activate_slot env s m a).1
  activate_slot-InSync s m a h p (a0, a1, a2, a3) e = (
    activate_slot-Agrees s m 0 a h p (omega arith) (λ _ _. a0) e,
    activate_slot-Agrees s m 1 a h p (omega arith) (λ _ _. a1) e,
    activate_slot-Agrees s m 2 a h p (omega arith) (λ _ _. a2) e,
    activate_slot-Agrees s m 3 a h p (omega arith) (λ _ _. a3) e,
  )

  activate_all-Agrees :
      (s i : ℕ) (a : App)
      → i < 4
      → (activate_slot env s 15 a).0 ≡ ok tt
      → Agrees i (activate_slot env s 15 a).1
  activate_all-Agrees s i a h e =
      activate_slot-Agrees s 15 i a (λ q. cc) (omega arith) h
        (λ p clear. absurd (clear (ground (arith, bit-nibble i)))) e

  -- A call for all four nodes that succeeds brings them into agreement from any state.
  pub activate_all-InSync :
      (s : ℕ) (a : App) → (activate_slot env s 15 a).0 ≡ ok tt → InSync (activate_slot env s 15 a).1
  activate_all-InSync s a e = (
    activate_all-Agrees s 0 a (omega arith) e,
    activate_all-Agrees s 1 a (omega arith) e,
    activate_all-Agrees s 2 a (omega arith) e,
    activate_all-Agrees s 3 a (omega arith) e,
  )

  -- The documented table, for a stored state of four bits: from no node on, all go on; from all on, all go off; from some on, a short
  -- press turns all off and a long press turns all on.
  toggle_power_states_table :
      (long_press : Bool) (a : App)
      → a.db.activated_nodes < 16
      → (toggle_power_states env long_press a).1.db.activated_nodes ≡ (
          if a.db.activated_nodes == 0
          then 15
          else if long_press && not (a.db.activated_nodes == 15)
          then 15
          else 0)
  unfolding toggle_power_states
  toggle_power_states_table long_press a h = ground (
    arith,
    merge_state_full a.db.activated_nodes h,
    ap (λ (r : Result Fault (Unit {0}) × App). r.1.db.activated_nodes)
        (activate_slot_run 15 15 a (λ q. cc)),
    ap (λ (r : Result Fault (Unit {0}) × App). r.1.db.activated_nodes)
        (activate_slot_run 0 15 a (λ q. cc)),
  )
