-- ===== src/Auth/Ban/Laws.antt =====
-- How long a peer is banned, and that no other peer is.
use tpi_bmcd.Base.{
  ◌&&◌, ℕ, zero, suc, ◌+◌, ◌-◌, ◌*◌, ◌<◌, ◌≤◌, ◌≡◌, ◌∙◌, refl, min, ltb, leb, if◌then◌else◌, String,
  str_eq, str_eq_iff, Bool-cases, inl, inr, Option, none, some, ok, err, arith,
}
use mathlib.Core.Option
use native.Mathlib.Nat.{pow-suc, one-le-pow}
use tpi_bmcd.Base.Assoc.{lookup, text_key, lookup-insert, lookup-remove}
use tpi_bmcd.Auth.Errors.{exceeded_allowed_attempts}
use tpi_bmcd.Auth.Ban.{
  BanPatrol, Penalty, ban_duration, ban_levels, ban_length, patrole_ban, penalize, entry,
  clear_penalties,
}

-- What a peer sees: attempts so far, and the end of its ban.
abbrev pub penalty_of : BanPatrol → String → Option Penalty
penalty_of b peer = lookup peer b.penalties

-- A ban lasts a minute for the attempt that reaches the limit, twice as long for each attempt after
-- it, and 1024 minutes from the tenth after it on.
ban_length_lem :
    (max_attempts extra : ℕ)
    → (ban_length max_attempts max_attempts ≡ ban_duration)
      × (ban_length (max_attempts + suc extra) max_attempts ≡ (
          if ltb extra ban_levels
          then 2 * ban_length (max_attempts + extra) max_attempts
          else 1024 * ban_duration))
unfolding ban_length
ban_length_lem m extra = (
  (let e : min (m - m) 10 ≡ 0 = omega arith in rw e refl),
  elim (Bool-cases (ltb extra 10)) [
    | inl h ↦
        (let now : min (m + suc extra - m) 10 ≡ suc extra = ground arith in
          let before : min (m + extra - m) 10 ≡ extra = ground arith in
          rw (h, now, before, pow-suc 2 extra) (omega arith))
    | inr h ↦ (let now : min (m + suc extra - m) 10 ≡ 10 = ground arith in rw (h, now) refl)
  ],
)

ban_duration-le : (attempts max_attempts : ℕ) → ban_duration ≤ ban_length attempts max_attempts
unfolding ban_length
ban_duration-le attempts m = omega (arith, one-le-pow (min (attempts - m) 10) 2)

-- Penalties count one more attempt and concern no other peer. Below the limit the call allows the
-- peer to go on; from the limit on it bans the peer and says so, if the clock has not moved past the
-- ban since.
penalize_lem :
    (peer other : String) (created struck checked : ℕ) (b : BanPatrol)
    → checked < struck + ban_duration
    → let (r, b') = penalize peer created struck checked b in
      let old = entry (penalty_of b peer) created in
      let max_attempts = b.max_authentication_attempts in
      let end = struck + ban_length (old.attempts + 1) max_attempts in
      (b'.max_authentication_attempts ≡ max_attempts)
      × (penalty_of b' other ≡ (
          if str_eq peer other
          then some (record {
            attempts = old.attempts + 1;
            deadline = if leb max_attempts (old.attempts + 1) then end else old.deadline;
          })
          else penalty_of b other))
      × (r ≡ (
          if leb max_attempts (old.attempts + 1)
          then err (exceeded_allowed_attempts end)
          else ok tt))
unfolding penalize patrole_ban
penalize_lem peer other created struck checked b h =
    let old = entry (penalty_of b peer) created in
    let ban : Penalty = record {
      attempts = old.attempts + 1;
      deadline = struck + ban_length (old.attempts + 1) b.max_authentication_attempts;
    } in
    let strike : Penalty = record old { attempts = old.attempts + 1 } in
    ground (
      arith,
      str_eq_iff peer peer,
      lookup-insert peer other ban b.penalties,
      lookup-insert peer peer ban b.penalties,
      lookup-insert peer other strike b.penalties,
      ban_duration-le (old.attempts + 1) b.max_authentication_attempts,
    )

-- The state after a penalty, whatever the clock does.
penalty_of-penalize :
    (peer : String) (created struck checked : ℕ) (b : BanPatrol)
    → let b' = (penalize peer created struck checked b).1 in
      let old = entry (penalty_of b peer) created in
      (penalty_of b' peer
        ≡ some (record {
          attempts = old.attempts + 1;
          deadline =
              if leb b.max_authentication_attempts (old.attempts + 1)
              then struck + ban_length (old.attempts + 1) b.max_authentication_attempts
              else old.deadline;
        }))
      × (b'.max_authentication_attempts ≡ b.max_authentication_attempts)
unfolding penalize
penalty_of-penalize peer created struck checked b =
    let old = entry (penalty_of b peer) created in
    let ban : Penalty = record {
      attempts = old.attempts + 1;
      deadline = struck + ban_length (old.attempts + 1) b.max_authentication_attempts;
    } in
    let strike : Penalty = record old { attempts = old.attempts + 1 } in
    ground (
      arith,
      str_eq_iff peer peer,
      lookup-insert peer peer ban b.penalties,
      lookup-insert peer peer strike b.penalties,
    )

-- `n` failed attempts of one peer in a row; the `k`th reads the clock three times, from `3 * k` on.
unfoldable pub failures : (ℕ → ℕ) → String → ℕ → BanPatrol → BanPatrol
failures now peer zero b = b
failures now peer (suc n) b =
    (penalize peer (now (3 * n)) (now (3 * n + 1)) (now (3 * n + 2)) (failures now peer n b)).1

module _ (now : ℕ → ℕ) (peer : String) (b : BanPatrol) (fresh : penalty_of b peer ≡ none) where
  failures-max :
      (n : ℕ) → (failures now peer n b).max_authentication_attempts ≡ b.max_authentication_attempts
  unfolding failures
  failures-max zero = refl
  failures-max (suc n) =
      (penalty_of-penalize peer (now (3 * n)) (now (3 * n + 1)) (now (3 * n + 2))
        (failures now peer n b)).1
      ∙ failures-max n

  penalty_of-failures :
      (n : ℕ)
      → penalty_of (failures now peer (suc n) b) peer
        ≡ some (record {
          attempts = suc n;
          deadline =
              if leb b.max_authentication_attempts (suc n)
              then now (3 * n + 1) + ban_length (suc n) b.max_authentication_attempts
              else now 0;
        })
  unfolding failures
  penalty_of-failures zero =
      ground (arith, fresh, penalty_of-penalize peer (now 0) (now 1) (now 2) b)
  penalty_of-failures (suc n) = ground (
    arith,
    penalty_of-failures n,
    failures-max (suc n),
    penalty_of-penalize peer (now (3 * suc n)) (now (3 * suc n + 1)) (now (3 * suc n + 2))
        (failures now peer (suc n) b),
  )

  -- A peer without penalties that fails `n + 1` times in a row, at any moment not before its first
  -- attempt: below the limit it is allowed; from
  -- the limit on it is refused exactly until its ban, counted from its last attempt, has passed.
  pub lockout :
      (n later : ℕ)
      → now 0 ≤ later
      → patrole_ban (failures now peer (suc n) b) peer later ≡ (
          let end = now (3 * n + 1) + ban_length (suc n) b.max_authentication_attempts in
          if leb b.max_authentication_attempts (suc n) && ltb later end
          then err (exceeded_allowed_attempts end)
          else ok tt)
  unfolding patrole_ban
  lockout n later h = ground (arith, penalty_of-failures n)

-- Clearing lifts the ban of the peer and of no other.
pub patrole_ban-clear_penalties :
    (peer other : String) (later : ℕ) (b : BanPatrol)
    → patrole_ban (clear_penalties peer b) other later
      ≡ (if str_eq peer other then ok tt else patrole_ban b other later)
unfolding patrole_ban clear_penalties
patrole_ban-clear_penalties peer other later b =
    ground (arith, lookup-remove peer other b.penalties)

-- A penalty is one more attempt of its peer and of no other.
pub attempts-penalize :
    (peer other : String) (created struck checked : ℕ) (b : BanPatrol)
    → Option.map (λ p. p.attempts) (penalty_of (penalize peer created struck checked b).1 other) ≡ (
        if str_eq peer other
        then some ((entry (penalty_of b other) created).attempts + 1)
        else Option.map (λ p. p.attempts) (penalty_of b other))
unfolding penalize
attempts-penalize peer other created struck checked b =
    let old = entry (penalty_of b peer) created in
    let ban : Penalty = record {
      attempts = old.attempts + 1;
      deadline = struck + ban_length (old.attempts + 1) b.max_authentication_attempts;
    } in
    let strike : Penalty = record old { attempts = old.attempts + 1 } in
    ground (
      arith,
      str_eq_iff peer other,
      lookup-insert peer other ban b.penalties,
      lookup-insert peer other strike b.penalties,
    )

pub penalty_of-clear_penalties :
    (peer other : String) (b : BanPatrol)
    → penalty_of (clear_penalties peer b) other
      ≡ (if str_eq peer other then none else penalty_of b other)
unfolding clear_penalties
penalty_of-clear_penalties peer other b = lookup-remove peer other b.penalties
