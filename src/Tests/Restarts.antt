-- ===== src/Tests/Restarts.antt =====
-- The daemon stops and starts: its values, and the users of the shadow file.
use tpi_bmcd.Base.{
  ℕ, ◌^◌, ◌<◌, ◌≡◌, ap, subst, refl, true, false, String, str_eq, Option, none, some, List, [], ◌∷◌,
  length, Result, ok, err, arith, if◌then◌else◌,
}
use tpi_bmcd.Base.Assoc.{lookup, insert, remove, nat_key, text_key}
use tpi_bmcd.Base.Text.{split_once}
use tpi_bmcd.Auth.Errors.{AuthenticationError, incorrect_credentials}
use tpi_bmcd.Auth.Context.{Clock, from_iter}
use tpi_bmcd.Auth.Shadow.{parse_shadow_file, user_and_pass}
use tpi_bmcd.Auth.Watch
use tpi_bmcd.Auth.Watch.{
  Authenticator, Turn, basic, watched, watch_event, close_write, delete_self, ignored, take_turns,
}
use tpi_bmcd.Auth.Watch.Laws.{new-take_turns}
use tpi_bmcd.App.State.{default_db}
use tpi_bmcd.Persistency.{
  Bytes, PersistencyStore, new, write, new_header, from_keys, try_deserialize_source, try_set,
}
use tpi_bmcd.Persistency.Writer.{MonitorContext, Disk, persistency_written, commit_to_file, start}
use tpi_bmcd.Persistency.Builder.{PersistencyBuilder, build}
use tpi_bmcd.App.Store.{
  Change, set_activated_nodes, set_node1_usb, change_dbs, register_keys, set_changes, get_db,
}
use tpi_bmcd.App.Store.Restart.{get_db-restart}
use tpi_bmcd.Tests.Encodings.{write_map, reads, read_back, format, codecs, defaults}

abbrev pub no_file : Disk
no_file = record { current = none; pending = none }

abbrev pub changes : List Change
changes = set_activated_nodes 5 ∷ set_node1_usb true ∷ []

abbrev pub builder : PersistencyBuilder
builder = record {
  keys =
      ("activated_nodes", 0 ∷ [])
      ∷ ("usb_config", [])
      ∷ ("node_info", 0 ∷ 0 ∷ 0 ∷ 0 ∷ [])
      ∷ ("node1_usb", 0 ∷ [])
      ∷ ("cooling_devices", [])
      ∷ [];
  write_timeout = none;
}

abbrev pub first_run : MonitorContext × Disk
first_run = start format false true builder.keys no_file

abbrev Committed : Option PersistencyStore → Type 0
Committed none = Unit {0}
Committed (some t) =
    (length (write_map t.cache) < 2 ^ 32)
    × ((commit_to_file format 1000 (record first_run.0 { inner = t }) first_run.1).0
        ≡ persistency_written)

pub committed :
    (t : PersistencyStore)
    → set_changes format codecs changes first_run.0.inner ≡ some t
    → Committed (some t)
unfolding set_changes get_db lookup insert remove start write new_header new from_keys
    try_deserialize_source commit_to_file try_set
committed t e = subst Committed e (omega arith, refl)

get_db-restart_example :
    (register_keys codecs none ≡ some builder)
    × ((t : PersistencyStore) × (set_changes format codecs changes first_run.0.inner ≡ some t)
        × (get_db format codecs t ≡ some (change_dbs changes default_db))
        × (get_db format codecs
              (build format false true builder
                (commit_to_file format 1000
                  (record first_run.0 { inner = t })
                  first_run.1).2).0.inner
            ≡ some (change_dbs changes default_db)))
unfolding build
get_db-restart_example =
    get_db-restart format codecs (λ h. refl) reads
      (λ m. ap (λ (x : Bytes × List (ℕ × Bytes)). ok x.1) (read_back m)) (omega arith) defaults
      (omega arith) (omega arith) none no_file changes 1000 refl
      ((5 ∷ [], refl, refl), ((1 ∷ [], refl, refl), tt)) committed

-- Passwords that are stored as they are.
abbrev plain : String → String → Result AuthenticationError (Unit {0})
plain hash password = if str_eq hash password then ok tt else err incorrect_credentials

abbrev clock : Clock
clock n = 1000

-- A wrong password, a file that was written, one that was replaced, and one that cannot be read.
abbrev turns : List Turn
turns =
    basic clock "10.0.0.1" "root" "new"
    ∷ watched (watch_event close_write true (ok ("root:new:1" ∷ [])))
    ∷ watched (watch_event delete_self true (err 2))
    ∷ watched (watch_event ignored true (err 2))
    ∷ basic clock "10.0.0.1" "root" "new"
    ∷ []

new-take_turns_example :
    (a : Authenticator) × (Watch.new (ok ("root:old:1" ∷ [])) true 500 3 ≡ ok (some a))
    × (((take_turns plain turns a).context.passwds ≡ ("root", "new") ∷ [])
        × ((take_turns plain turns a).watching ≡ true))
unfolding parse_shadow_file user_and_pass split_once from_iter insert remove
new-take_turns_example = new-take_turns plain ("root:old:1" ∷ []) true 500 3 turns (omega arith)
