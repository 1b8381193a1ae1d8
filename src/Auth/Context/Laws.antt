-- ===== src/Auth/Context/Laws.antt =====
-- Passwords: who is penalised and who is cleared.
use tpi_bmcd.Base.{
  ℕ, ◌+◌, ◌≡◌, if◌then◌else◌, String, str_eq, Option, none, some, Result, ok, err, is_ok, arith,
}
use tpi_bmcd.Base.Assoc.{text_key}
use tpi_bmcd.Auth.Errors.{AuthenticationError, incorrect_credentials}
use mathlib.Core.Option
use tpi_bmcd.Auth.Ban.Laws.{penalty_of, attempts-penalize, penalty_of-clear_penalties}
use tpi_bmcd.Auth.Ban.{Penalty, patrole_ban}
use tpi_bmcd.Auth.Context.{
  Context, Clock, validate_credentials, password_check, judged, unless_banned,
}

module _ (validate : String → String → Result AuthenticationError (Unit {0})) where
  -- The attempts that a peer has behind it, after a password check of its own.
  abbrev pub attempts_after : Result AuthenticationError (Unit {0}) → Option Penalty → Option ℕ
  attempts_after (ok _) o = none
  attempts_after (err incorrect_credentials) none = some 1
  attempts_after (err incorrect_credentials) (some p) = some (p.attempts + 1)
  attempts_after (err e) o = Option.map (λ p. p.attempts) o

  -- Of a peer that is not banned: a password that passes wipes its attempts, a wrong one or an unknown
  -- user counts as one more, and any other error of the validator counts for nothing. The attempts of
  -- all other peers stay, and the answer is positive exactly if the password passes.
  pub validate_credentials_counts :
      (now : Clock) (peer other user pass : String) (c : Context)
      → patrole_ban c.ban_patrol peer (now 0) ≡ ok tt
      → let (r, c') = validate_credentials validate now peer user pass c in
        let checked = password_check validate user pass c in
        (is_ok r ≡ is_ok checked)
        × (Option.map (λ p. p.attempts) (penalty_of c'.ban_patrol other) ≡ (
            if str_eq peer other
            then attempts_after checked (penalty_of c.ban_patrol other)
            else Option.map (λ p. p.attempts) (penalty_of c.ban_patrol other)))
  unfolding validate_credentials
  validate_credentials_counts now peer other user pass c h =
      judge (password_check validate user pass c)
    where
      judge :
          (checked : Result AuthenticationError (Unit {0}))
          → let (r, c') =
              unless_banned
                (patrole_ban c.ban_patrol peer (now 0))
                (judged validate now peer checked)
                c in
            (is_ok r ≡ is_ok checked)
            × (Option.map (λ p. p.attempts) (penalty_of c'.ban_patrol other) ≡ (
                if str_eq peer other
                then attempts_after checked (penalty_of c.ban_patrol other)
                else Option.map (λ p. p.attempts) (penalty_of c.ban_patrol other)))
      judge checked = ground (
        arith,
        h,
        attempts-penalize peer other (now 1) (now 2) (now 3) c.ban_patrol,
        penalty_of-clear_penalties peer other c.ban_patrol,
      )
