-- ===== src/Serial/Connections/Laws.antt =====
-- Which console a request reaches.
use tpi_bmcd.Base.{
  ℕ, zero, suc, ◌≡◌, ◌≢◌, refl, ap, ==_iff, String, Option, none, some, List, [], ◌∷◌, length,
  get_elem?, ok, arith,
}
use tpi_bmcd.Hal.{NodeId, node1, node2, node3, node4, to_u8}
use tpi_bmcd.App.State.{modify_at}
use tpi_bmcd.App.Slots.Times.{get_elem?-modify_at}
use tpi_bmcd.Utils.Io.{Bytes}
use tpi_bmcd.Serial.Ring.{CircularBuffer}
use tpi_bmcd.Serial.Handler.{Handler}
use tpi_bmcd.Serial.Connections.{
  Ports, get_serial_devices, new_connections, index, legacy_serial_set_handler,
  legacy_serial_get_handler,
}
use tpi_bmcd.Api.{Query, get_node_param}

module _ (r : CircularBuffer) (describe : Option ℕ → String) where
  four :
      (ports : Ports r) (device_type : Option String)
      → length (new_connections r ports device_type) ≡ 4
  unfolding new_connections get_serial_devices
  four ports device_type = ground arith

  indexed :
      (handlers : List (Handler r)) (n : NodeId)
      → length handlers ≡ 4
      → (h : Handler r) × (index r handlers n ≡ some h)
  unfolding index to_u8
  indexed [] n e = absurd (omega arith)
  indexed (a ∷ []) n e = absurd (omega arith)
  indexed (a ∷ b ∷ []) n e = absurd (omega arith)
  indexed (a ∷ b ∷ c ∷ []) n e = absurd (omega arith)
  indexed (a ∷ b ∷ c ∷ d ∷ []) node1 e = (a, refl)
  indexed (a ∷ b ∷ c ∷ d ∷ []) node2 e = (b, refl)
  indexed (a ∷ b ∷ c ∷ d ∷ []) node3 e = (c, refl)
  indexed (a ∷ b ∷ c ∷ d ∷ []) node4 e = (d, refl)
  indexed (a ∷ b ∷ c ∷ d ∷ x ∷ rest) n e = absurd (omega arith)

  length-modify_at :
      (k : ℕ) (f : Handler r → Handler r) (hs : List (Handler r))
      → length (modify_at k f hs) ≡ length hs
  unfolding modify_at
  length-modify_at k f [] = refl
  length-modify_at zero f (h ∷ hs) = refl
  length-modify_at (suc k) f (h ∷ hs) = ap suc (length-modify_at k f hs)

  -- With four handlers neither request panics. A command leaves four handlers, and of those the ones of
  -- other nodes are as they were.
  serial_requests_lem :
      (encode : String → Bytes) (from_utf8_lossy : Bytes → List ℕ) (query : Query)
      (handlers : List (Handler r)) (n : NodeId) (i : ℕ)
      → length handlers ≡ 4
      → get_node_param query ≡ ok n
      → i ≢ to_u8 n
      → let (answer, after) = legacy_serial_set_handler r describe encode query handlers in
        (legacy_serial_get_handler r describe from_utf8_lossy query handlers ≢ none)
        × (answer ≢ none)
        × (length after ≡ 4)
        × (get_elem? after i ≡ get_elem? handlers i)
  unfolding legacy_serial_get_handler legacy_serial_set_handler
  serial_requests_lem encode from_utf8_lossy query handlers n i four e other =
      let (h, found) = indexed handlers n four in
      (
        ground arith,
        ground arith,
        grind (arith, λ (h' : Handler r). length-modify_at (to_u8 n) (λ _. h') handlers),
        grind (
          arith,
          λ (h' : Handler r). get_elem?-modify_at (to_u8 n) i (λ _. h') handlers,
          ==_iff (to_u8 n) i,
        ),
      )
