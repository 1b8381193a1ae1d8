-- ===== src/Upgrade/Update/Laws.antt =====
-- Where the image of a firmware upgrade goes, and what is left of it.
use Prim.Native.Char.{code}
use Prim.Native.String.{◌++◌}
use tpi_bmcd.Base.{
  ◌≡◌, refl, subst, ℕ, ◌==◌, not, ◌&&◌, Bool, true, if◌then◌else◌, String, Option, none, some, List,
  [], ◌∷◌, Result, ok, err, arith, inl, inr,
}
use tpi_bmcd.Base.Results.{Result-cases}
use tpi_bmcd.Base.Text.{starts_with_char}
use tpi_bmcd.Utils.Io.{Bytes, IoError, Hasher, new_monitor}
use tpi_bmcd.Upgrade.{
  Failure, io, update_failed, DataTransfer, local, new_remote, transfer_name, Reader,
}
use tpi_bmcd.Upgrade.Path.{push, split_path, last_component, file_name}
use tpi_bmcd.Upgrade.Copy.{Copy, copy_or_cancel}
use tpi_bmcd.Upgrade.Flash.{returned}
use tpi_bmcd.Upgrade.Update.{
  Os, OsAction, create_dir, remove_dir, open_image, os_update_command, attempt, update_with,
  os_update, image_of,
}

-- The end of an upgrade whose files all work: the answer, and the actions.
abbrev pub ending :
    (sys : Os) → String → Result IoError ℕ → Result Failure (Unit {0}) × List OsAction
ending sys image (err e) = (err (io e), open_image image ∷ create_dir ∷ [])
ending sys image (ok n) =
    let before = open_image image ∷ create_dir ∷ [] in
    (
      if sys.exit_success before then ok tt else err update_failed,
      remove_dir ∷ os_update_command image ∷ before,
    )

module _ (sys : Os) (works : (log : List OsAction) (x : OsAction) → sys.outcome log x ≡ none) where
  attempt_works : (x : OsAction) (log : List OsAction) → attempt sys x log ≡ (ok tt, x ∷ log)
  unfolding attempt
  attempt_works x log = rw (works log x) refl

  update_with_lem :
      (c : Hasher ℕ) (copy : Copy) (image : String)
      → update_with sys c copy image [] ≡ ending sys image (copy_or_cancel c copy (new_monitor c)).0
  unfolding update_with
  update_with_lem c copy image = elim (Result-cases (copy_or_cancel c copy (new_monitor c)).0) [
    | inl (n, e) ↦
        let log = open_image image ∷ create_dir ∷ [] in
        rw
          (
            attempt_works create_dir [],
            attempt_works (open_image image) (create_dir ∷ []),
            e,
            works log (os_update_command image),
            attempt_works remove_dir (os_update_command image ∷ log),
          )
          (ground arith)
    | inr (x, e) ↦
        rw (attempt_works create_dir [], attempt_works (open_image image) (create_dir ∷ []), e) refl
  ]

  -- If the system refuses no action: the updater runs exactly if the copy succeeded, its exit status
  -- decides the result, and the directory is removed afterwards; a copy that failed or was cancelled gives
  -- its error and leaves the directory and the partial image behind.
  pub os_update_lem :
      (c : Hasher ℕ) (copy : Copy) (t : DataTransfer) (r : Reader) (name : String)
      → transfer_name t ≡ ok name
      → let (result, log) =
          ending sys (image_of sys name) (copy_or_cancel c copy (new_monitor c)).0 in
        os_update sys c copy t (some (ok r)) [] ≡ (returned result, log)
  unfolding os_update
  os_update_lem c copy t r name named =
      rw (os_update, named, update_with_lem c copy (image_of sys name)) refl

abbrev pub no_slash : String → Bool
no_slash String.[] = true
no_slash (String.◌∷◌ c s) = not (code c == b'/') && no_slash s

abbrev all_no_slash : List String → Bool
all_no_slash [] = true
all_no_slash (s ∷ ss) = no_slash s && all_no_slash ss

split_path-no_slash : (s : String) → all_no_slash (split_path s) ≡ true
unfolding split_path
split_path-no_slash String.[] = refl
split_path-no_slash (String.◌∷◌ c s) = ground (arith, split_path-no_slash s)

last_component-no_slash :
    (parts : List String) (name : String)
    → all_no_slash parts ≡ true
    → last_component parts ≡ some name
    → no_slash name ≡ true
last_component-no_slash [] name h e = absurd (cc)
last_component-no_slash (part ∷ parts) name h e = ground (arith, last_component-no_slash parts name)

file_name-no_slash : (path name : String) → file_name path ≡ some name → no_slash name ≡ true
unfolding file_name
file_name-no_slash path name e =
    ground (arith, last_component-no_slash (split_path path) name (split_path-no_slash path))

inside :
    (sys : Os) (name : String)
    → no_slash name ≡ true
    → image_of sys name ≡ "/tmp/os_upgrade" ++ "/" ++ name
unfolding push
inside sys String.[] h = refl
inside sys (String.◌∷◌ c s) h = ground arith

-- The image of a local file is written into the temporary directory, under the last component of its
-- path, which has no slash.
local_image_inside :
    (sys : Os) (path name : String)
    → transfer_name (local path) ≡ ok name
    → (no_slash name ≡ true) × (image_of sys name ≡ "/tmp/os_upgrade" ++ "/" ++ name)
unfolding transfer_name
local_image_inside sys path name e =
    let plain = file_name-no_slash path name (ground arith) in (plain, inside sys name plain)

-- If the system refuses no action, the image of an upload whose name is an absolute path is written to
-- that path itself, and not into the temporary directory.
pub uploaded_image_anywhere :
    (sys : Os) (c : Hasher ℕ) (copy : Copy) (r : Reader) (path : String) (n : ℕ)
    (sha : Option Bytes)
    → ((log : List OsAction) (x : OsAction) → sys.outcome log x ≡ none)
    → starts_with_char b'/' path ≡ true
    → let (result, log) = ending sys path (copy_or_cancel c copy (new_monitor c)).0 in
      os_update sys c copy (new_remote path n sha) (some (ok r)) [] ≡ (returned result, log)
unfolding transfer_name new_remote push
uploaded_image_anywhere sys c copy r path n sha works absolute =
    let e : image_of sys path ≡ path = rw (push, absolute) refl in
    subst
      (λ image. os_update sys c copy (new_remote path n sha) (some (ok r)) [] ≡ (
        returned (ending sys image (copy_or_cancel c copy (new_monitor c)).0).0,
        (ending sys image (copy_or_cancel c copy (new_monitor c)).0).1,
      ))
      e (os_update_lem sys works c copy (new_remote path n sha) r path refl)
