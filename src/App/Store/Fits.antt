-- ===== src/App/Store/Fits.antt =====
-- A value that is stored under its key, and what a set and a get do to it.
use tpi_bmcd.Base.{ℕ, ◌≡◌, ◌≢◌, ==_iff, true, String, some, List, [], ◌∷◌, ok, arith}
use tpi_bmcd.Base.Assoc.{lookup, nat_key, lookup-insert}
use tpi_bmcd.Persistency.{Bytes, Format, Codec, PersistencyStore, try_get, try_set}
use tpi_bmcd.App.Store.{
  Codecs, Change, set_activated_nodes, set_usb_config, set_node_infos, set_node1_usb, set_cooling,
  get, set, activated_nodes_key, usb_config_key, node_info_key, node1_usb_mode_key,
  cooling_devices_key,
}

-- A value that comes through its encoding.
abbrev pub Fits : {T : Type 0} → Codec T → T → Type 0
Fits c v = (bytes : Bytes) × (c.encode v ≡ ok bytes) × (c.decode bytes ≡ ok v)

-- The bytes under a key decode to a value.
abbrev pub Holds : {T : Type 0} → Format → Codec T → String → T → PersistencyStore → Type 0
Holds f c key v s =
    (bytes : Bytes) × (lookup (f.hash key) s.cache ≡ some bytes) × (c.decode bytes ≡ ok v)

module _ (f : Format) where
  pub set-Holds :
      {T : Type 0} (c : Codec T) (key : String) (old v : T) (s : PersistencyStore)
      → Holds f c key old s
      → Fits c v
      → (t : PersistencyStore) × (set f c key v s ≡ some t)
        × Holds f c key v t
        × ((j : ℕ) → f.hash key ≢ j → lookup j t.cache ≡ lookup j s.cache)
  unfolding set try_set
  set-Holds c key old v s (bytes, there, _) (new, encoded, decoded) =
      let t = (try_set f c true key v s).1 in
      (
        t,
        ground (arith, there, encoded),
        (
          new,
          ground (
            arith,
            there,
            encoded,
            lookup-insert (f.hash key) (f.hash key) new s.cache,
            ==_iff (f.hash key) (f.hash key),
          ),
          decoded,
        ),
        λ j h. ground (arith, h, there, encoded, lookup-insert (f.hash key) j new s.cache),
      )

  pub get-Holds :
      {T : Type 0} (c : Codec T) (key : String) (v : T) (s : PersistencyStore)
      → Holds f c key v s
      → get f c key s ≡ some v
  unfolding get try_get
  get-Holds c key v s (bytes, there, decoded) = ground (arith, there, decoded)

abbrev pub Differ : ℕ → List ℕ → Type 0
Differ x [] = Unit
Differ x (y ∷ ys) = (x ≢ y) × Differ x ys

abbrev pub AllDiffer : List ℕ → Type 0
AllDiffer [] = Unit
AllDiffer (x ∷ xs) = Differ x xs × AllDiffer xs

-- The five keys have different hashes.
abbrev pub NoCollision : Format → Type 0
NoCollision f = AllDiffer (
    f.hash activated_nodes_key
    ∷ f.hash usb_config_key
    ∷ f.hash node_info_key
    ∷ f.hash node1_usb_mode_key
    ∷ f.hash cooling_devices_key
    ∷ [])

-- The values that are set come through their encodings.
abbrev pub FitsChange : Codecs → Change → Type 0
FitsChange cs (set_activated_nodes v) = Fits cs.activated_nodes v
FitsChange cs (set_usb_config v) = Fits cs.usb_config v
FitsChange cs (set_node_infos v) = Fits cs.node_infos v
FitsChange cs (set_node1_usb v) = Fits cs.node1_usb v
FitsChange cs (set_cooling v) = Fits cs.cooling v

abbrev pub FitChanges : Codecs → List Change → Type 0
FitChanges cs [] = Unit
FitChanges cs (c ∷ changes) = FitsChange cs c × FitChanges cs changes
