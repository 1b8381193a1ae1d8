-- ===== src/Api/Power/Laws.antt =====
-- What a power request does to the stored state.
use tpi_bmcd.Base.{
  ℕ, zero, suc, ◌^◌, ◌*◌, ◌/◌, ◌<◌, ◌≡◌, ap, refl, bit_or, ◌==◌, ==_iff, ltb, Bool, true, false,
  not, ◌&&◌, if◌then◌else◌, List, [], ◌∷◌, Result, ok, err, is_ok, arith,
}
use native.Mathlib.Nat.{pow-suc}
use tpi_bmcd.Base.Bits.{bit, bit-zero, bit-bit_or, bit-le-one, bit_or-lt_nibble}
use tpi_bmcd.Base.Assoc.{lookup, text_key}
use tpi_bmcd.Stream.{mem}
use tpi_bmcd.Hal.Device.{Env}
use tpi_bmcd.App.State.{App}
use tpi_bmcd.App.Slots.{activate_slot}
use tpi_bmcd.App.Slots.Laws.{activate_slot_stores}
use tpi_bmcd.Api.{Query, LegacyResponse, or_refuse, run}
use tpi_bmcd.Api.Power.{
  Requested, absent, power, invalid, requested, param, power_masks, set_node_power, invalid_value,
}

bit-pow : (i j : ℕ) → bit i (2 ^ j) ≡ (if i == j then 1 else 0)
unfolding bit
bit-pow zero zero = refl
bit-pow zero (suc j) = rw (pow-suc 2 j) (ground arith)
bit-pow (suc i) zero = ground (arith, bit-zero i)
bit-pow (suc i) (suc j) =
    let half : 2 ^ j * 2 / 2 ≡ 2 ^ j = omega arith in
    rw (pow-suc 2 j, half) (ground (arith, bit-pow i j))

-- Whether a parameter is refused, given, and asks for power.
abbrev pub refused : Requested → Bool
refused (invalid _) = true
refused _ = false

abbrev pub given : Requested → Bool
given (power _) = true
given _ = false

abbrev pub wants : Requested → Bool
wants (power on) = on
wants _ = false

abbrev pub asked : Query → ℕ → Requested
asked query i = requested (lookup (param i) query)

abbrev pub all_valid : Query → List ℕ → Bool
all_valid query [] = true
all_valid query (i ∷ places) = not (refused (asked query i)) && all_valid query places

abbrev LoopDone : Query → List ℕ → ℕ → ℕ → ℕ → Result LegacyResponse (ℕ × ℕ) → Type 0
LoopDone query places s m i r =
    (is_ok r ≡ all_valid query places)
    × ((s' m' : ℕ)
        → r ≡ ok (s', m')
        → (bit i m' ≡ (if mem i places && given (asked query i) then 1 else bit i m))
          × (bit i s' ≡ (if mem i places && wants (asked query i) then 1 else bit i s)))

same_asked : (query : Query) (j i : ℕ) → (j == i) ≡ true → asked query j ≡ asked query i
same_asked query j i h = ap (asked query) ((==_iff j i).0 h)

-- The loop refuses exactly if a parameter is invalid; else the mask has the bits of the parameters
-- that are given, the states those that ask for power.
power_masks_lem :
    (query : Query) (places : List ℕ) (s m i : ℕ)
    → LoopDone query places s m i (power_masks query places s m)
unfolding power_masks
power_masks_lem query [] s m i = (refl, λ s' m' e. ground arith)
power_masks_lem query (j ∷ places) s m i =
    go (asked query j) refl (λ t n. power_masks_lem query places t n i)
  where
    go :
        (a : Requested)
        → asked query j ≡ a
        → ((t n : ℕ) → LoopDone query places t n i (power_masks query places t n))
        → LoopDone query (j ∷ places) s m i (elim a [
          | absent ↦ power_masks query places s m
          | power on ↦
              power_masks query places (if on then bit_or s (2 ^ j) else s) (bit_or m (2 ^ j))
          | invalid x ↦ err (invalid_value x (param j))
        ])
    go (invalid x) e ih = (ground arith, λ s' m' q. cc)
    go absent e ih =
        let (valid, bits) = ih s m in
        (ground (arith, valid), λ s' m' q. ground (arith, bits s' m' q, same_asked query j i))
    go (power true) e ih =
        let (valid, bits) = ih (bit_or s (2 ^ j)) (bit_or m (2 ^ j)) in
        (
          ground (arith, valid),
          λ s' m' q. ground (
            arith,
            bits s' m' q,
            same_asked query j i,
            bit-bit_or i m (2 ^ j),
            bit-bit_or i s (2 ^ j),
            bit-pow i j,
            bit-le-one i m,
            bit-le-one i s,
          ),
        )
    go (power false) e ih =
        let (valid, bits) = ih s (bit_or m (2 ^ j)) in
        (
          ground (arith, valid),
          λ s' m' q. ground (
            arith,
            bits s' m' q,
            same_asked query j i,
            bit-bit_or i m (2 ^ j),
            bit-pow i j,
            bit-le-one i m,
          ),
        )

all_small : List ℕ → Bool
all_small [] = true
all_small (j ∷ places) = ltb (2 ^ j) 16 && all_small places

small_mask :
    (query : Query) (places : List ℕ) (s m s' m' : ℕ)
    → m < 16
    → all_small places ≡ true
    → power_masks query places s m ≡ ok (s', m')
    → m' < 16
unfolding power_masks all_small
small_mask query [] s m s' m' h k e = ground arith
small_mask query (j ∷ places) s m s' m' h k e =
    go (asked query j) (λ t n. small_mask query places t n s' m') e
  where
    go :
        (a : Requested)
        → ((t n : ℕ)
            → n < 16
            → all_small places ≡ true
            → power_masks query places t n ≡ ok (s', m')
            → m' < 16)
        → (elim a [
          | absent ↦ power_masks query places s m
          | power on ↦
              power_masks query places (if on then bit_or s (2 ^ j) else s) (bit_or m (2 ^ j))
          | invalid x ↦ err (invalid_value x (param j))
        ])
          ≡ ok (s', m')
        → m' < 16
    go (invalid x) ih q = cc
    go absent ih q = ih s m h (ground arith) q
    go (power on) ih q =
        ih (if on then bit_or s (2 ^ j) else s) (bit_or m (2 ^ j))
          (bit_or-lt_nibble m (2 ^ j) h (ground arith)) (ground arith) q

abbrev pub four : List ℕ
four = 0 ∷ 1 ∷ 2 ∷ 3 ∷ []

-- The bit that a parameter asks for.
abbrev pub resolved : Requested → ℕ → ℕ
resolved (power true) old = 1
resolved (power false) old = 0
resolved _ old = old

four_small : all_small four ≡ true
unfolding all_small
four_small = refl

resolved_lem :
    (r : Requested) (old : ℕ)
    → resolved r old ≡ (if given r then (if wants r then 1 else 0) else old)
resolved_lem absent old = refl
resolved_lem (invalid x) old = refl
resolved_lem (power true) old = refl
resolved_lem (power false) old = refl

module _ (env : Env) where
  activated :
      (query : Query) (i s m : ℕ) (a : App)
      → i < 4
      → m < 16
      → bit i m ≡ (if mem i four && given (asked query i) then 1 else bit i 0)
      → bit i s ≡ (if mem i four && wants (asked query i) then 1 else bit i 0)
      → bit i (activate_slot env s m a).1.db.activated_nodes
        ≡ resolved (asked query i) (bit i a.db.activated_nodes)
  unfolding activate_slot
  activated query i s zero a h small mask state =
      rw (resolved_lem (asked query i) (bit i a.db.activated_nodes))
        (ground (arith, mask, bit-zero i))
  activated query i s (suc m) a h small mask state =
      rw (resolved_lem (asked query i) (bit i a.db.activated_nodes)) (
        ground (
          arith,
          mask,
          state,
          bit-zero i,
          (activate_slot_stores env s (suc m) i a (λ e. cc) (omega arith) (omega arith)).0,
        ))

  -- If one of the four parameters is neither "0" nor "1" the request changes nothing. Else the stored
  -- state of each node is the one its parameter asks for, and stays where there is none; also if the
  -- hardware fails.
  pub set_node_power_lem :
      (query : Query) (i : ℕ) (a : App)
      → i < 4
      → let b = (set_node_power env query a).1 in
        (bit i b.db.activated_nodes ≡ (
          if all_valid query four
          then resolved (asked query i) (bit i a.db.activated_nodes)
          else bit i a.db.activated_nodes))
        × ((if all_valid query four then a else b) ≡ a)
  unfolding set_node_power
  set_node_power_lem query i a h =
      go (power_masks query four 0 0) (power_masks_lem query four 0 0 i)
        (λ s m. small_mask query four 0 0 s m (omega arith) four_small)
    where
      go :
          (r : Result LegacyResponse (ℕ × ℕ))
          → LoopDone query four 0 0 i r
          → ((s m : ℕ) → r ≡ ok (s, m) → m < 16)
          → let b = (or_refuse r (λ (s, m). run (activate_slot env s m)) a).1 in
            (bit i b.db.activated_nodes ≡ (
              if all_valid query four
              then resolved (asked query i) (bit i a.db.activated_nodes)
              else bit i a.db.activated_nodes))
            × ((if all_valid query four then a else b) ≡ a)
      go (err x) (valid, bits) lt = (ground (arith, valid), ground (arith, valid))
      go (ok (s, m)) (valid, bits) lt =
          let (mask, state) = bits s m refl in
          (
            rw (activated query i s m a h (lt s m refl) mask state) (ground (arith, valid)),
            ground (arith, valid),
          )
