-- ===== src/App/Store/Laws.antt =====
-- What the application finds in its store.
use tpi_bmcd.Base.{◌≡◌, ◌∙◌, sym, refl, String, some, List, [], ◌∷◌}
use tpi_bmcd.Base.Assoc.{lookup, nat_key}
use tpi_bmcd.App.State.{Db}
use tpi_bmcd.Persistency.{Format, Codec, PersistencyStore}
use tpi_bmcd.App.Store.{
  Codecs, Change, set_activated_nodes, set_usb_config, set_node_infos, set_node1_usb, set_cooling,
  change_db, change_dbs, set_change, set_changes, get_db, activated_nodes_key, usb_config_key,
  node_info_key, node1_usb_mode_key, cooling_devices_key,
}
use tpi_bmcd.App.Store.Fits.{Holds, set-Holds, get-Holds, NoCollision, FitsChange, FitChanges}

module _ (f : Format) (cs : Codecs) where
  -- The store holds the values of the application.
  pub record IsStored (db : Db) (s : PersistencyStore) : Type 0 where
    pub activated : Holds f cs.activated_nodes activated_nodes_key db.activated_nodes s
    pub usb : Holds f cs.usb_config usb_config_key db.usb_config s
    pub infos : Holds f cs.node_infos node_info_key db.node_infos s
    pub node1 : Holds f cs.node1_usb node1_usb_mode_key db.node1_usb s
    pub speeds : Holds f cs.cooling cooling_devices_key db.cooling s

  pub get_db-IsStored : (db : Db) (s : PersistencyStore) → IsStored db s → get_db f cs s ≡ some db
  unfolding get_db
  get_db-IsStored db s h =
      rw
        (
          get-Holds f cs.activated_nodes activated_nodes_key db.activated_nodes s h.activated,
          get-Holds f cs.usb_config usb_config_key db.usb_config s h.usb,
          get-Holds f cs.node_infos node_info_key db.node_infos s h.infos,
          get-Holds f cs.node1_usb node1_usb_mode_key db.node1_usb s h.node1,
          get-Holds f cs.cooling cooling_devices_key db.cooling s h.speeds,
        )
        refl

  -- What holds in a store that has the same bytes under the key.
  moved :
      {T : Type 0} (c : Codec T) (key : String) (v : T) (s t : PersistencyStore)
      → lookup (f.hash key) t.cache ≡ lookup (f.hash key) s.cache
      → Holds f c key v s
      → Holds f c key v t
  moved c key v s t same (bytes, there, decoded) = (bytes, same ∙ there, decoded)

  module _ (apart : NoCollision f) where
    set_change-IsStored :
        (c : Change) (db : Db) (s : PersistencyStore)
        → FitsChange cs c
        → IsStored db s
        → (t : PersistencyStore) × (set_change f cs c s ≡ some t) × IsStored (change_db c db) t
    unfolding set_change
    set_change-IsStored (set_activated_nodes v) db s fits h =
        let (t, e, new, rest) =
          set-Holds f cs.activated_nodes activated_nodes_key db.activated_nodes v s h.activated
            fits in
        (
          t,
          e,
          record {
            activated = new;
            usb =
                moved cs.usb_config usb_config_key db.usb_config s t
                  (rest (f.hash usb_config_key) apart.0.0) h.usb;
            infos =
                moved cs.node_infos node_info_key db.node_infos s t
                  (rest (f.hash node_info_key) apart.0.1.0) h.infos;
            node1 =
                moved cs.node1_usb node1_usb_mode_key db.node1_usb s t
                  (rest (f.hash node1_usb_mode_key) apart.0.1.1.0) h.node1;
            speeds =
                moved cs.cooling cooling_devices_key db.cooling s t
                  (rest (f.hash cooling_devices_key) apart.0.1.1.1.0) h.speeds;
          },
        )
    set_change-IsStored (set_usb_config v) db s fits h =
        let (t, e, new, rest) =
          set-Holds f cs.usb_config usb_config_key db.usb_config v s h.usb fits in
        (
          t,
          e,
          record {
            activated =
                moved cs.activated_nodes activated_nodes_key db.activated_nodes s t
                  (rest (f.hash activated_nodes_key) (λ q. apart.0.0 (sym q))) h.activated;
            usb = new;
            infos =
                moved cs.node_infos node_info_key db.node_infos s t
                  (rest (f.hash node_info_key) apart.1.0.0) h.infos;
            node1 =
                moved cs.node1_usb node1_usb_mode_key db.node1_usb s t
                  (rest (f.hash node1_usb_mode_key) apart.1.0.1.0) h.node1;
            speeds =
                moved cs.cooling cooling_devices_key db.cooling s t
                  (rest (f.hash cooling_devices_key) apart.1.0.1.1.0) h.speeds;
          },
        )
    set_change-IsStored (set_node_infos v) db s fits h =
        let (t, e, new, rest) =
          set-Holds f cs.node_infos node_info_key db.node_infos v s h.infos fits in
        (
          t,
          e,
          record {
            activated =
                moved cs.activated_nodes activated_nodes_key db.activated_nodes s t
                  (rest (f.hash activated_nodes_key) (λ q. apart.0.1.0 (sym q))) h.activated;
            usb =
                moved cs.usb_config usb_config_key db.usb_config s t
                  (rest (f.hash usb_config_key) (λ q. apart.1.0.0 (sym q))) h.usb;
            infos = new;
            node1 =
                moved cs.node1_usb node1_usb_mode_key db.node1_usb s t
                  (rest (f.hash node1_usb_mode_key) apart.1.1.0.0) h.node1;
            speeds =
                moved cs.cooling cooling_devices_key db.cooling s t
                  (rest (f.hash cooling_devices_key) apart.1.1.0.1.0) h.speeds;
          },
        )
    set_change-IsStored (set_node1_usb v) db s fits h =
        let (t, e, new, rest) =
          set-Holds f cs.node1_usb node1_usb_mode_key db.node1_usb v s h.node1 fits in
        (
          t,
          e,
          record {
            activated =
                moved cs.activated_nodes activated_nodes_key db.activated_nodes s t
                  (rest (f.hash activated_nodes_key) (λ q. apart.0.1.1.0 (sym q))) h.activated;
            usb =
                moved cs.usb_config usb_config_key db.usb_config s t
                  (rest (f.hash usb_config_key) (λ q. apart.1.0.1.0 (sym q))) h.usb;
            infos =
                moved cs.node_infos node_info_key db.node_infos s t
                  (rest (f.hash node_info_key) (λ q. apart.1.1.0.0 (sym q))) h.infos;
            node1 = new;
            speeds =
                moved cs.cooling cooling_devices_key db.cooling s t
                  (rest (f.hash cooling_devices_key) apart.1.1.1.0.0) h.speeds;
          },
        )
    set_change-IsStored (set_cooling v) db s fits h =
        let (t, e, new, rest) =
          set-Holds f cs.cooling cooling_devices_key db.cooling v s h.speeds fits in
        (
          t,
          e,
          record {
            activated =
                moved cs.activated_nodes activated_nodes_key db.activated_nodes s t
                  (rest (f.hash activated_nodes_key) (λ q. apart.0.1.1.1.0 (sym q))) h.activated;
            usb =
                moved cs.usb_config usb_config_key db.usb_config s t
                  (rest (f.hash usb_config_key) (λ q. apart.1.0.1.1.0 (sym q))) h.usb;
            infos =
                moved cs.node_infos node_info_key db.node_infos s t
                  (rest (f.hash node_info_key) (λ q. apart.1.1.0.1.0 (sym q))) h.infos;
            node1 =
                moved cs.node1_usb node1_usb_mode_key db.node1_usb s t
                  (rest (f.hash node1_usb_mode_key) (λ q. apart.1.1.1.0.0 (sym q))) h.node1;
            speeds = new;
          },
        )

    pub set_changes-IsStored :
        (changes : List Change) (db : Db) (s : PersistencyStore)
        → FitChanges cs changes
        → IsStored db s
        → (t : PersistencyStore) × (set_changes f cs changes s ≡ some t)
          × IsStored (change_dbs changes db) t
    unfolding set_changes
    set_changes-IsStored [] db s fits h = (s, refl, h)
    set_changes-IsStored (c ∷ changes) db s fits h =
        let (t, e, stored) = set_change-IsStored c db s fits.0 h in
        let (u, e', stored') = set_changes-IsStored changes (change_db c db) t fits.1 stored in
        (u, rw e e', stored')
