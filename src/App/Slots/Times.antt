-- ===== src/App/Slots/Times.antt =====
-- What `update_power_on_times` does to the moment since when a node is on.
use tpi_bmcd.Base.{
  ℕ, ◌+◌, zero, suc, ◌<◌, ◌≤◌, ◌≡◌, ◌≢◌, ◌∙◌, refl, ap, ◌&&◌, ◌||◌, not, ◌⊎◌, ◌==◌, ltb,
  if◌then◌else◌, Option, none, some, List, [], ◌∷◌, get_elem?, arith,
}
use mathlib.Core.Option
use native.Mathlib.Nat.{pow-suc, one-le-pow}
use tpi_bmcd.Base.Bits.{bit, bit-le-one, bit_and-pow}
use tpi_bmcd.Hal.Device.{Env, Trace, did, read_clock}
use tpi_bmcd.Hal.Helpers.{bit_iterator}
use tpi_bmcd.Hal.Helpers.Laws.{bit_iterator_lem}
use tpi_bmcd.App.State.{App, NodeInfo, modify_at}
use tpi_bmcd.App.Slots.{stamp, activate_slot}
use tpi_bmcd.App.Slots.Laws.{stamped, activate_slot_run}

pub get_elem?-modify_at {ℓ} :
    {A : Type ℓ} (i j : ℕ) (f : A → A) (xs : List A)
    → get_elem? (modify_at i f xs) j
      ≡ (if i == j then Option.map f (get_elem? xs j) else get_elem? xs j)
unfolding modify_at
get_elem?-modify_at i j f [] = ground arith
get_elem?-modify_at zero zero f (x ∷ xs) = refl
get_elem?-modify_at zero (suc j) f (x ∷ xs) = ground arith
get_elem?-modify_at (suc i) zero f (x ∷ xs) = ground arith
get_elem?-modify_at (suc i) (suc j) f (x ∷ xs) = get_elem?-modify_at i j f xs ∙ ground arith

-- The comparison that the code makes, in terms of bits: for the first node it is a comparison of
-- states, for the others a running node differs from itself.
stamp_lem :
    (activated idx v : ℕ) (now : Option ℕ) (info : NodeInfo)
    → v ≤ 1
    → stamp activated idx v now info ≡ (
        if v == bit idx activated && (idx == 0 || v == 0)
        then info
        else record info { power_on_time = if v == 1 then now else none })
unfolding stamp
stamp_lem activated zero v now info h =
    ground (arith, bit_and-pow 0 activated, bit-le-one 0 activated)
stamp_lem activated (suc i) v now info h = ground (
  arith,
  bit_and-pow (suc i) activated,
  bit-le-one (suc i) activated,
  pow-suc 2 i,
  one-le-pow i 2,
)

-- The trace after `k` readings of the clock.
abbrev pub readings : ℕ → Trace → Trace
readings zero t = t
readings (suc k) t = readings k (did read_clock ∷ t)

-- How many nodes before node `i` the mask selects.
abbrev pub selected_before : ℕ → ℕ → ℕ
selected_before zero m = 0
selected_before (suc i) m = selected_before i m + bit i m

module _ (env : Env) where
  -- What the updates do to the info at place `i`, each with a reading of its own.
  abbrev stamped_at : ℕ → ℕ → List (ℕ × ℕ) → Trace → Option NodeInfo → Option NodeInfo
  stamped_at activated i [] t o = o
  stamped_at activated i ((j, v) ∷ us) t o =
      stamped_at activated i us (did read_clock ∷ t)
        (if j == i then Option.map (stamp activated j v (env.timestamp t)) o else o)

  get_elem?-stamped :
      (activated : ℕ) (us : List (ℕ × ℕ)) (infos : List NodeInfo) (t : Trace) (i : ℕ)
      → get_elem? (stamped env activated us infos t).0 i
        ≡ stamped_at activated i us t (get_elem? infos i)
  get_elem?-stamped activated [] infos t i = refl
  get_elem?-stamped activated ((j, v) ∷ us) infos t i =
      get_elem?-stamped activated us _ (did read_clock ∷ t) i
      ∙ ap (stamped_at activated i us (did read_clock ∷ t))
          (get_elem?-modify_at j i (stamp activated j v (env.timestamp t)) infos)

  stamped_at-bit_iterator :
      (activated s m i : ℕ) (t : Trace) (o : Option NodeInfo)
      → stamped_at activated i (bit_iterator s m) t o ≡ (
          if ltb i 4 && bit i m == 1
          then Option.map
              (stamp activated i (bit i s) (env.timestamp (readings (selected_before i m) t)))
              o
          else o)
  stamped_at-bit_iterator activated s m zero t o =
      rw bit_iterator_lem (ground (arith, bit-le-one 0 m, bit-le-one 1 m, bit-le-one 2 m))
  stamped_at-bit_iterator activated s m (suc zero) t o =
      rw bit_iterator_lem (ground (arith, bit-le-one 0 m, bit-le-one 1 m, bit-le-one 2 m))
  stamped_at-bit_iterator activated s m (suc (suc zero)) t o =
      rw bit_iterator_lem (ground (arith, bit-le-one 0 m, bit-le-one 1 m, bit-le-one 2 m))
  stamped_at-bit_iterator activated s m (suc (suc (suc zero))) t o =
      rw bit_iterator_lem (ground (arith, bit-le-one 0 m, bit-le-one 1 m, bit-le-one 2 m))
  stamped_at-bit_iterator activated s m (suc (suc (suc (suc i)))) t o =
      rw bit_iterator_lem (ground (arith, bit-le-one 0 m, bit-le-one 1 m, bit-le-one 2 m))

  -- The clock as the update of node `i` reads it, when a call with the mask `m` starts after `t`.
  abbrev pub clock_at : ℕ → ℕ → Trace → Option ℕ
  clock_at i m t = env.timestamp (readings (selected_before i m) t)

  infos_after :
      (s m i : ℕ) (a : App)
      → m ≢ 0
      → get_elem? (activate_slot env s m a).1.db.node_infos i ≡ (
          if ltb i 4 && bit i m == 1
          then Option.map
              (stamp a.db.activated_nodes i (bit i s) (clock_at i m a.trace))
              (get_elem? a.db.node_infos i)
          else get_elem? a.db.node_infos i)
  infos_after s m i a h = rw (activate_slot_run env s m a h) (
      get_elem?-stamped a.db.activated_nodes (bit_iterator s m) a.db.node_infos a.trace i
      ∙ stamped_at-bit_iterator a.db.activated_nodes s m i a.trace _)

  -- Unless a running node after the first is asked to be on: a node that the call switches on gets the
  -- time that the clock reads for it, one that it switches off loses its time, and every other node
  -- keeps its info.
  pub activate_slot_times :
      (s m i : ℕ) (a : App) (info : NodeInfo)
      → m ≢ 0
      → i < 4
      → get_elem? a.db.node_infos i ≡ some info
      → (i ≡ 0) ⊎ (bit i a.db.activated_nodes ≡ 0) ⊎ (bit i s ≡ 0)
      → get_elem? (activate_slot env s m a).1.db.node_infos i
        ≡ some (
            if bit i m == 1 && not (bit i s == bit i a.db.activated_nodes)
            then record info { power_on_time = if bit i s == 1 then clock_at i m a.trace else none }
            else info)
  activate_slot_times s m i a info h p e usual = ground (
    arith,
    infos_after s m i a h,
    stamp_lem a.db.activated_nodes i (bit i s) (clock_at i m a.trace) info,
    bit-le-one i s,
    bit-le-one i a.db.activated_nodes,
  )

  -- The second to fourth node: a call that asks a running node to be on restarts its time, since the
  -- code compares the new state, 0 or 1, with the old bit in its place. The new time is the reading of
  -- the clock that the update of that node makes, after one for each node before it that the mask
  -- selects. The first node keeps its time.
  pub running_node_restarts :
      (s m i : ℕ) (a : App) (info : NodeInfo)
      → m ≢ 0
      → i < 4
      → get_elem? a.db.node_infos i ≡ some info
      → bit i m ≡ 1
      → bit i a.db.activated_nodes ≡ 1
      → bit i s ≡ 1
      → get_elem? (activate_slot env s m a).1.db.node_infos i
        ≡ some (if i == 0 then info else record info { power_on_time = clock_at i m a.trace })
  running_node_restarts s m i a info h p e sel on stay = ground (
    arith,
    infos_after s m i a h,
    stamp_lem a.db.activated_nodes i (bit i s) (clock_at i m a.trace) info,
  )
