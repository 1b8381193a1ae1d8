-- ===== src/Persistency.antt =====
-- bmcd/src/persistency/binary_persistency.rs and error.rs: the key/value store and its file format.
-- The formats of crate `bincode` are parameters, with errors as texts.
pub mod Laws
pub mod Writer
pub mod Builder
use tpi_bmcd.Base.{
  ℕ, ◌+◌, ◌*◌, ◌^◌, ltb, leb, ◌==◌, not, ◌&&◌, ◌||◌, Bool, true, false, if◌then◌else◌, String,
  Option, none, some, List, [], ◌∷◌, ◌++◌, length, drop, Result, ok, err,
}
use tpi_bmcd.Base.Results.{◌>>=◌, ok_or, map_err}
pub use tpi_bmcd.Utils.Io.{Bytes, same_bytes}
use tpi_bmcd.Base.Assoc.{lookup, insert, nat_key}

abbrev pub binary_version : ℕ
binary_version = 1

-- b"TMAPPDB"
abbrev pub binary_magic : Bytes
binary_magic = 84 ∷ 77 ∷ 65 ∷ 80 ∷ 80 ∷ 68 ∷ 66 ∷ []

pub record PersistencyHeader : Type 0 where
  pub version : ℕ
  pub magic : Bytes
  pub data_size : ℕ
  pub data_offset : ℕ

pub data PersistencyError : Type 0 where
  unknown_format : PersistencyError
  unsupported_version : ℕ → PersistencyError
  serialization_error : String → String → PersistencyError
  unknown_key : String → PersistencyError

-- `watcher` is there once `get_watcher` was called; its receiver may be gone. `notified` counts the
-- messages that were sent.
pub record PersistencyStore : Type 0 where
  pub cache : List (ℕ × Bytes)
  pub watcher : Bool
  pub notified : ℕ
  pub dirty : Bool

-- `HashMap::from_iter` on the registered keys: of two entries for one key the later stays.
unfoldable pub from_keys :
    (String → ℕ) → List (String × Bytes) → List (ℕ × Bytes) → List (ℕ × Bytes)
from_keys hash [] m = m
from_keys hash ((k, v) ∷ keys) m = from_keys hash keys (insert (hash k) v m)

-- `extend` by a map, whose keys differ, so that their order does not matter.
unfoldable pub extend : List (ℕ × Bytes) → List (ℕ × Bytes) → List (ℕ × Bytes)
extend destination [] = destination
extend destination ((k, v) ∷ entries) = insert k v (extend destination entries)

-- Crate `bincode` for the header and for the map, and std's `DefaultHasher` on a key.
pub record Format : Type 0 where
  pub encode_header : PersistencyHeader → Bytes
  pub decode_header : Bytes → Result String PersistencyHeader
  pub encode_map : List (ℕ × Bytes) → Bytes
  pub decode_map : Bytes → Result String (List (ℕ × Bytes))
  pub hash : String → ℕ

-- And for one type of values.
pub record Codec (T : Type 0) : Type 0 where
  pub encode : T → Result String Bytes
  pub decode : Bytes → Result String T

module _ (f : Format) where
  abbrev pub blank : PersistencyHeader
  blank = record { version = binary_version; magic = binary_magic; data_size = 0; data_offset = 0 }

  abbrev pub header_size : ℕ
  header_size = length (f.encode_header blank)

  -- `PersistencyHeader::new`; `none` is the failed `expect`.
  unfoldable pub new_header : Option PersistencyHeader
  new_header =
      if ltb header_size (2 ^ 16) then some (record blank { data_offset = header_size }) else none

  abbrev pub check_header : PersistencyHeader → Result PersistencyError PersistencyHeader
  check_header header =
      if not (same_bytes header.magic binary_magic)
      then err unknown_format
      else if not (header.version == binary_version)
      then err (unsupported_version header.version)
      else ok header

  unfoldable pub try_load_data : Bytes → Result PersistencyError (List (ℕ × Bytes))
  try_load_data source =
      map_err (serialization_error "header deserialization") (f.decode_header source) >>= λ raw.
      check_header raw >>= λ header.
      map_err (serialization_error "cache load") (f.decode_map (drop header.data_offset source))

  -- The destination after the call, beside the result.
  unfoldable pub try_deserialize_source :
      Bytes → List (ℕ × Bytes) → Result PersistencyError (List (ℕ × Bytes))
  try_deserialize_source source destination =
      if leb header_size (length source)
      then (try_load_data source >>= λ entries. ok (extend destination entries))
      else if length source == 0
      then ok destination
      else err unknown_format

  abbrev pub loaded :
      List (ℕ × Bytes) → Result PersistencyError (List (ℕ × Bytes)) → List (ℕ × Bytes)
  loaded defaults (ok cache) = cache
  loaded defaults (err e) = defaults

  -- An error of the source is logged.
  unfoldable pub new : List (String × Bytes) → Bytes → PersistencyStore
  new keys source =
      let defaults = from_keys f.hash keys [] in
      record {
        cache = loaded defaults (try_deserialize_source source defaults);
        watcher = false;
        notified = 0;
        dirty = false;
      }

  unfoldable pub get_watcher : PersistencyStore → PersistencyStore
  get_watcher s = record s { watcher = true }

  -- What is written to an empty file. `none` is a failed `expect`: a header or data too large.
  unfoldable pub write : PersistencyStore → Option (Bytes × PersistencyStore)
  write s = elim new_header [
    | none ↦ none
    | some header ↦
        (let bytes = f.encode_map s.cache in
          if ltb (length bytes) (2 ^ 32)
          then some (
            f.encode_header (record header { data_size = length bytes }) ++ bytes,
            record s { dirty = false },
          )
          else none)
  ]

  module _ {T : Type 0} (c : Codec T) where
    unfoldable pub try_get : String → PersistencyStore → Result PersistencyError T
    try_get key s = ok_or (lookup (f.hash key) s.cache) (unknown_key key) >>= λ bytes.
        map_err (serialization_error key) (c.decode bytes)

    abbrev pub changed : Option Bytes → Bytes → Bool
    changed none encoded = true
    changed (some previous) encoded = not (same_bytes previous encoded)

    -- `listening` tells whether the watcher's receiver is still there.
    abbrev pub notify : Bool → PersistencyStore → PersistencyStore
    notify listening s =
        if s.watcher
        then (if listening
            then record s { notified = s.notified + 1 }
            else record s { watcher = false })
        else s

    abbrev pub put :
        Bool
        → String
        → Option Bytes
        → PersistencyStore
        → Bytes
        → Result PersistencyError (Unit {0}) × PersistencyStore
    put listening key none s encoded = (err (unknown_key key), s)
    put listening key (some previous) s encoded =
        let stored = record s { cache = insert (f.hash key) encoded s.cache } in
        (
          ok tt,
          if changed (some previous) encoded
              then notify listening (record stored { dirty = true })
              else stored,
        )

    abbrev pub set_encoded :
        Bool
        → String
        → Result String Bytes
        → PersistencyStore
        → Result PersistencyError (Unit {0}) × PersistencyStore
    set_encoded listening key (err e) s = (err (serialization_error key e), s)
    set_encoded listening key (ok encoded) s =
        put listening key (lookup (f.hash key) s.cache) s encoded

    unfoldable pub try_set :
        Bool → String → T → PersistencyStore → Result PersistencyError (Unit {0}) × PersistencyStore
    try_set listening key value s = set_encoded listening key (c.encode value) s
