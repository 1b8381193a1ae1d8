-- ===== src/Auth/Ban.antt =====
-- bmcd/src/authentication/ban_patrol.rs: penalties for failed attempts. Each call takes the readings
-- of `Instant::now()` that it makes.
pub mod Laws
use tpi_bmcd.Base.{
  ℕ, ◌+◌, ◌-◌, ◌*◌, ◌^◌, ◌==◌, min, ltb, leb, if◌then◌else◌, String, Option, none, some, List, [],
  Result, ok, err,
}
use tpi_bmcd.Base.Assoc.{lookup, insert, remove, text_key}
use tpi_bmcd.Auth.Errors.{AuthenticationError, exceeded_allowed_attempts}

abbrev pub ban_levels : ℕ
ban_levels = 10

-- 60 s
abbrev pub ban_duration : ℕ
ban_duration = 60_000_000_000

pub record Penalty : Type 0 where
  pub attempts : ℕ
  pub deadline : ℕ

pub record BanPatrol : Type 0 where
  pub penalties : List (String × Penalty)
  pub max_authentication_attempts : ℕ

-- `none` is the failed assertion.
unfoldable pub new : ℕ → Option BanPatrol
new max_attempts =
    if max_attempts == 0
    then none
    else some (record { penalties = []; max_authentication_attempts = max_attempts })

abbrev verdict : Option Penalty → ℕ → Result AuthenticationError (Unit {0})
verdict none now = ok tt
verdict (some p) now =
    if ltb now p.deadline then err (exceeded_allowed_attempts p.deadline) else ok tt

unfoldable pub patrole_ban : BanPatrol → String → ℕ → Result AuthenticationError (Unit {0})
patrole_ban b peer now = verdict (lookup peer b.penalties) now

unfoldable pub clear_penalties : String → BanPatrol → BanPatrol
clear_penalties peer b = record b { penalties = remove peer b.penalties }

-- The entry of a peer, `(0, now)` where there is none.
abbrev pub entry : Option Penalty → ℕ → Penalty
entry none now = record { attempts = 0; deadline = now }
entry (some p) now = p

-- The length of the ban after that many attempts.
unfoldable pub ban_length : ℕ → ℕ → ℕ
ban_length attempts max_attempts = ban_duration * 2 ^ min (attempts - max_attempts) ban_levels

abbrev pub penalized : BanPatrol → String → Penalty → BanPatrol
penalized b peer p = record b { penalties = insert peer p b.penalties }

-- `created`, `struck` and `checked` are the readings of the clock, in the order of the code.
unfoldable pub penalize :
    String → ℕ → ℕ → ℕ → BanPatrol → Result AuthenticationError (Unit {0}) × BanPatrol
penalize peer created struck checked b =
    let old = entry (lookup peer b.penalties) created in
    let counted = old.attempts + 1 in
    let max_attempts = b.max_authentication_attempts in
    if leb max_attempts counted
    then (let banned =
          penalized b peer
            (record { attempts = counted; deadline = struck + ban_length counted max_attempts }) in
        (patrole_ban banned peer checked, banned))
    else (ok tt, penalized b peer (record old { attempts = counted }))
