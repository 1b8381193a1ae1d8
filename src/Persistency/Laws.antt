-- ===== src/Persistency/Laws.antt =====
-- What the store holds after it was set, written and loaded again.
use tpi_bmcd.Base.{
  ℕ, ◌<◌, ◌^◌, ◌≡◌, refl, leb, ◌==◌, ==_iff, not, ◌&&◌, ◌||◌, Bool, true, false, if◌then◌else◌,
  String, none, some, List, [], ◌∷◌, ◌++◌, length, length-append, drop_prefix, ok, is_ok, arith,
}
use tpi_bmcd.Base.Assoc.{lookup, nat_key, lookup-insert}
use tpi_bmcd.Persistency.{
  Format, Codec, Bytes, binary_magic, PersistencyHeader, PersistencyStore, same_bytes, from_keys,
  extend, blank, header_size, new_header, try_load_data, try_deserialize_source, new, write,
  try_get, try_set,
}

lookup-extend :
    (j : ℕ) (destination entries : List (ℕ × Bytes))
    → lookup j (extend destination entries)
      ≡ (elim (lookup j entries) [ some v ↦ some v | none ↦ lookup j destination ])
unfolding extend lookup
lookup-extend j destination [] = refl
lookup-extend j destination ((k, v) ∷ entries) =
    ground
      (arith, lookup-extend j destination entries, lookup-insert k j v (extend destination entries))

module _ (f : Format) where
  -- The header that `write` writes.
  abbrev written_header : PersistencyStore → PersistencyHeader
  written_header s = record (blank f) {
    data_offset = header_size f;
    data_size = length (f.encode_map s.cache);
  }

  write_lem :
      (s : PersistencyStore)
      → header_size f < 2 ^ 16
      → length (f.encode_map s.cache) < 2 ^ 32
      → write f s
        ≡ some
            (f.encode_header (written_header s) ++ f.encode_map s.cache, record s { dirty = false })
  unfolding write new_header
  write_lem s h k = ground (arith, h, k)

  read_back :
      (s : PersistencyStore) (destination : List (ℕ × Bytes))
      → length (f.encode_header (written_header s)) ≡ header_size f
      → f.decode_header (f.encode_header (written_header s) ++ f.encode_map s.cache)
        ≡ ok (written_header s)
      → f.decode_map (f.encode_map s.cache) ≡ ok s.cache
      → try_deserialize_source f
          (f.encode_header (written_header s) ++ f.encode_map s.cache)
          destination
        ≡ ok (extend destination s.cache)
  unfolding try_deserialize_source try_load_data
  read_back s destination fixed front maps =
      let bytes = f.encode_header (written_header s) ++ f.encode_map s.cache in
      let long : leb (header_size f) (length bytes) ≡ true =
        ground (
          arith,
          fixed,
          length-append (f.encode_header (written_header s)) (f.encode_map s.cache),
        ) in
      rw
        (
          long,
          front,
          drop_prefix (header_size f) (f.encode_header (written_header s)) (f.encode_map s.cache)
              fixed,
          maps,
        )
        refl

  -- The store is written and loaded back. The format's headers have a fixed size below 2 ^ 16 and are
  -- read back from the front of a file; the map is read back and has fewer than 2 ^ 32 bytes. Then
  -- `write` into an empty file succeeds, and a store that starts from that file with any registered
  -- keys holds every entry of the written store, and its own defaults for the other hashes. Neither
  -- store is dirty then, and the written one keeps its entries.
  pub new-write :
      (s : PersistencyStore) (keys : List (String × Bytes)) (j : ℕ)
      → ((h : PersistencyHeader) → length (f.encode_header h) ≡ header_size f)
      → ((h : PersistencyHeader) (rest : Bytes)
          → h.magic ≡ binary_magic
          → f.decode_header (f.encode_header h ++ rest) ≡ ok h)
      → f.decode_map (f.encode_map s.cache) ≡ ok s.cache
      → header_size f < 2 ^ 16
      → length (f.encode_map s.cache) < 2 ^ 32
      → (out : Bytes × PersistencyStore) × (write f s ≡ some out)
        × (lookup j (new f keys out.0).cache ≡ (elim (lookup j s.cache) [
          | some v ↦ some v
          | none ↦ lookup j (from_keys f.hash keys [])
        ]))
        × ((new f keys out.0).dirty ≡ false)
        × (out.1.dirty ≡ false)
        × (out.1.cache ≡ s.cache)
  unfolding new
  new-write s keys j fixed front maps h k =
      let back =
        read_back s (from_keys f.hash keys []) (fixed (written_header s))
          (front (written_header s) (f.encode_map s.cache) refl) maps in
      (
        _,
        write_lem s h k,
        rw back (lookup-extend j (from_keys f.hash keys []) s.cache),
        refl,
        refl,
        refl,
      )

  module _ {T : Type 0} (c : Codec T) where
    -- A value that is encoded and decoded to itself can be set exactly if its key is registered. Then it
    -- is what a get of that key yields, the other hashes keep their bytes, and the store is dirty if it
    -- was or the bytes differ. A set of another key changes nothing.
    pub try_get-try_set :
        (listening : Bool) (key : String) (value : T) (bytes : Bytes) (j : ℕ) (s : PersistencyStore)
        → c.encode value ≡ ok bytes
        → c.decode bytes ≡ ok value
        → let (r, t) = try_set f c listening key value s in
          (is_ok r ≡ (elim (lookup (f.hash key) s.cache) [ some _ ↦ true | none ↦ false ]))
          × (lookup j t.cache
              ≡ (if is_ok r && f.hash key == j then some bytes else lookup j s.cache))
          × ((if is_ok r then try_get f c key t else ok value) ≡ ok value)
          × (t.dirty ≡ (
              s.dirty || (elim (lookup (f.hash key) s.cache) [
                | some old ↦ not (same_bytes old bytes)
                | none ↦ false
              ])))
          × ((if is_ok r then s else t) ≡ s)
    unfolding try_set try_get
    try_get-try_set listening key value bytes j s e d = rw e (
        ground (
          arith,
          d,
          lookup-insert (f.hash key) j bytes s.cache,
          lookup-insert (f.hash key) (f.hash key) bytes s.cache,
          ==_iff (f.hash key) (f.hash key),
        ))
