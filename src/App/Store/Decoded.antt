-- ===== src/App/Store/Decoded.antt =====
-- What a get or a set that does not panic tells of the store.
use tpi_bmcd.Base.{
  ◌≡◌, subst, refl, String, Option, Option-cases, none, some, List, [], ◌∷◌, ok, inl, inr, arith,
}
use tpi_bmcd.Base.Assoc.{lookup, nat_key}
use tpi_bmcd.Base.Results.{Result-cases}
use tpi_bmcd.App.State.{Db}
use tpi_bmcd.Persistency.{Bytes, Format, Codec, PersistencyStore, try_get, try_set}
use tpi_bmcd.App.Store.{
  Codecs, Change, set_activated_nodes, set_usb_config, set_node_infos, set_node1_usb, set_cooling,
  get, set, set_change, set_changes, get_db, activated_nodes_key, usb_config_key, node_info_key,
  node1_usb_mode_key, cooling_devices_key, ◌>>=?◌,
}
use tpi_bmcd.App.Store.Fits.{Holds, Fits, FitsChange, FitChanges}
use tpi_bmcd.App.Store.Laws.{IsStored}

-- What was encoded is decoded.
abbrev pub RoundTrips : {T : Type 0} → Codec T → Type 0
RoundTrips {T} c = (v : T) (bytes : Bytes) → c.encode v ≡ ok bytes → c.decode bytes ≡ ok v

abbrev pub AllRoundTrip : Codecs → Type 0
AllRoundTrip cs =
    RoundTrips cs.activated_nodes
    × RoundTrips cs.usb_config
    × RoundTrips cs.node_infos
    × RoundTrips cs.node1_usb
    × RoundTrips cs.cooling

bound :
    {A B : Type 0} (o : Option A) (g : A → Option B) (b : B)
    → (o >>=? g) ≡ some b
    → (a : A) × (o ≡ some a) × (g a ≡ some b)
bound (some a) g b e = (a, refl, e)
bound none g b e = cc

module _ (f : Format) where
  set-Fits :
      {T : Type 0} (c : Codec T) (key : String) (v : T) (s t : PersistencyStore)
      → RoundTrips c
      → set f c key v s ≡ some t
      → Fits c v
  unfolding set try_set
  set-Fits c key v s t back e = elim (Result-cases (c.encode v)) [
    | inl (bytes, encoded) ↦ (bytes, encoded, back v bytes encoded)
    | inr (x, fails) ↦ absurd (ground (arith, fails))
  ]

  get-Holds_back :
      {T : Type 0} (c : Codec T) (key : String) (v : T) (s : PersistencyStore)
      → get f c key s ≡ some v
      → Holds f c key v s
  unfolding get try_get
  get-Holds_back c key v s e = elim (Option-cases (lookup (f.hash key) s.cache)) [
    | inl missing ↦ absurd (ground (arith, missing))
    | inr (bytes, there) ↦ elim (Result-cases (c.decode bytes)) [
      | inl (w, decoded) ↦ (bytes, there, ground (arith, there, decoded))
      | inr (x, fails) ↦ absurd (ground (arith, there, fails))
    ]
  ]

  module _ (cs : Codecs) where
    -- The values that could be got are stored.
    pub get_db-decoded :
        (db : Db) (s : PersistencyStore) → get_db f cs s ≡ some db → IsStored f cs db s
    unfolding get_db
    get_db-decoded db s e =
        let (v1, e1, r1) = bound (get f cs.activated_nodes activated_nodes_key s) _ db e in
        let (v2, e2, r2) = bound (get f cs.usb_config usb_config_key s) _ db r1 in
        let (v3, e3, r3) = bound (get f cs.node_infos node_info_key s) _ db r2 in
        let (v4, e4, r4) = bound (get f cs.node1_usb node1_usb_mode_key s) _ db r3 in
        let (v5, e5, r5) = bound (get f cs.cooling cooling_devices_key s) _ db r4 in
        let all : record {
          activated_nodes = v1;
          usb_config = v2;
          node_infos = v3;
          node1_usb = v4;
          cooling = v5;
        }
            ≡ db =
          ground arith in
        subst (λ (x : Db). IsStored f cs x s) all
          (record {
            activated = get-Holds_back cs.activated_nodes activated_nodes_key v1 s e1;
            usb = get-Holds_back cs.usb_config usb_config_key v2 s e2;
            infos = get-Holds_back cs.node_infos node_info_key v3 s e3;
            node1 = get-Holds_back cs.node1_usb node1_usb_mode_key v4 s e4;
            speeds = get-Holds_back cs.cooling cooling_devices_key v5 s e5;
          })

    set_change-Fits :
        (c : Change) (s t : PersistencyStore)
        → AllRoundTrip cs
        → set_change f cs c s ≡ some t
        → FitsChange cs c
    unfolding set_change
    set_change-Fits (set_activated_nodes v) s t back e =
        set-Fits cs.activated_nodes _ v s t back.0 e
    set_change-Fits (set_usb_config v) s t back e = set-Fits cs.usb_config _ v s t back.1 e
    set_change-Fits (set_node_infos v) s t back e = set-Fits cs.node_infos _ v s t back.2 e
    set_change-Fits (set_node1_usb v) s t back e = set-Fits cs.node1_usb _ v s t back.3 e
    set_change-Fits (set_cooling v) s t back e = set-Fits cs.cooling _ v s t back.4 e

    -- Values that could be set come through their encodings.
    pub set_changes-Fits :
        (changes : List Change) (s t : PersistencyStore)
        → AllRoundTrip cs
        → set_changes f cs changes s ≡ some t
        → FitChanges cs changes
    unfolding set_changes
    set_changes-Fits [] s t back e = tt
    set_changes-Fits (c ∷ changes) s t back e =
        let (u, first, rest) = bound (set_change f cs c s) (set_changes f cs changes) t e in
        (set_change-Fits c s u back first, set_changes-Fits changes u t back rest)
