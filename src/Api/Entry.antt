-- ===== src/Api/Entry.antt =====
-- `api_entry` of bmcd/src/api/legacy.rs: which handler a query reaches.
use tpi_bmcd.Base.{
  ◌≡◌, ◌∙◌, sym, ap, refl, ◌&&◌, inl, inr, Bool-cases, str_eq_iff, false≢true, Bool, true, false,
  not, if◌then◌else◌, String, str_eq, Option, none, some, List, [], ◌∷◌, Result, ok, err, arith,
}
use Prim.Native.String.{◌++◌}
use tpi_bmcd.Base.Results.{◌>>=◌, ok_or}
use tpi_bmcd.Base.Assoc.{lookup, text_key}
use tpi_bmcd.Api.{Query, LegacyResponse, bad_request}

-- One constructor for each arm of the match.
pub data Endpoint : Type 0 where
  usb_boot clear_usb_boot reset_network set_node_info get_node_info get_node_aux_info : Endpoint
  set_node_to_msd get_system_information set_node_power get_node_power reboot reload_self : Endpoint
  reset_node format_sdcard get_sdcard_info serial_get serial_set set_usb_mode get_usb_mode :
      Endpoint
  set_node1_usb_mode get_node1_usb_mode get_info get_cooling_info set_cooling_info get_about :
      Endpoint

-- The arms with `true`, and those with `false`.
abbrev pub setters : List (String × Endpoint)
setters =
    ("usb_boot", usb_boot)
    ∷ ("clear_usb_boot", clear_usb_boot)
    ∷ ("network", reset_network)
    ∷ ("nodeinfo", set_node_info)
    ∷ ("node_to_msd", set_node_to_msd)
    ∷ ("power", set_node_power)
    ∷ ("reboot", reboot)
    ∷ ("reload", reload_self)
    ∷ ("reset", reset_node)
    ∷ ("sdcard", format_sdcard)
    ∷ ("uart", serial_set)
    ∷ ("usb", set_usb_mode)
    ∷ ("usb_node1", set_node1_usb_mode)
    ∷ ("cooling", set_cooling_info)
    ∷ []

abbrev pub getters : List (String × Endpoint)
getters =
    ("nodeinfo", get_node_info)
    ∷ ("node_info", get_node_aux_info)
    ∷ ("other", get_system_information)
    ∷ ("power", get_node_power)
    ∷ ("sdcard", get_sdcard_info)
    ∷ ("uart", serial_get)
    ∷ ("usb", get_usb_mode)
    ∷ ("usb_node1", get_node1_usb_mode)
    ∷ ("info", get_info)
    ∷ ("cooling", get_cooling_info)
    ∷ ("about", get_about)
    ∷ []

unfoldable pub is_set : Query → Result LegacyResponse Bool
is_set query = elim (lookup "opt" query) [
  | some opt ↦
      if str_eq opt "set"
      then ok true
      else if str_eq opt "get"
      then ok false
      else err (bad_request "Missing `opt` parameter")
  | none ↦ err (bad_request "Missing `opt` parameter")
]

unfoldable pub api_entry : Query → Result LegacyResponse Endpoint
api_entry query = is_set query >>= λ set.
    ok_or (lookup "type" query) (bad_request "Missing `type` parameter") >>= λ ty.
    ok_or (lookup ty (if set then setters else getters))
      (bad_request ("Invalid `type` parameter " ++ ty))

-- The handlers that do more than report: all but those that answer with information.
abbrev pub acts : Endpoint → Bool
acts get_node_info = false
acts get_node_aux_info = false
acts get_system_information = false
acts get_node_power = false
acts get_sdcard_info = false
acts serial_get = false
acts get_usb_mode = false
acts get_node1_usb_mode = false
acts get_info = false
acts get_cooling_info = false
acts get_about = false
acts _ = true

abbrev all_read : List (String × Endpoint) → Bool
all_read [] = true
all_read ((ty, e) ∷ arms) = not (acts e) && all_read arms

lookup-all_read :
    (ty : String) (arms : List (String × Endpoint)) (e : Endpoint)
    → all_read arms ≡ true
    → lookup ty arms ≡ some e
    → acts e ≡ false
unfolding lookup
lookup-all_read ty [] e h k = cc
lookup-all_read ty ((t, d) ∷ arms) e h k = ground (arith, lookup-all_read ty arms e)

entry_of : Bool → Option String → Result LegacyResponse Endpoint
entry_of set o = ok_or o (bad_request "Missing `type` parameter") >>= λ ty.
    ok_or (lookup ty (if set then setters else getters))
      (bad_request ("Invalid `type` parameter " ++ ty))

entry_of_getter : (o : Option String) (e : Endpoint) → entry_of false o ≡ ok e → acts e ≡ false
unfolding entry_of
entry_of_getter none e h = cc
entry_of_getter (some ty) e h = found (lookup ty getters) refl h
  where
    found :
        (r : Option Endpoint)
        → lookup ty getters ≡ r
        → ok_or r (bad_request ("Invalid `type` parameter " ++ ty)) ≡ ok e
        → acts e ≡ false
    found none p q = cc
    found (some d) p q = ground (arith, lookup-all_read ty getters d refl p)

-- A handler that does more than report is reached only by a query whose `opt` is "set".
api_entry-acts :
    (query : Query) (e : Endpoint)
    → api_entry query ≡ ok e
    → acts e ≡ true
    → lookup "opt" query ≡ some "set"
unfolding api_entry is_set entry_of
api_entry-acts query e h a = opt (lookup "opt" query) refl h
  where
    opt :
        (o : Option String)
        → lookup "opt" query ≡ o
        → (elim o [
          | some x ↦
              if str_eq x "set"
              then ok true
              else if str_eq x "get"
              then ok false
              else err (bad_request "Missing `opt` parameter")
          | none ↦ err (bad_request "Missing `opt` parameter")
        ]
            >>= λ set. entry_of set (lookup "type" query))
          ≡ ok e
        → lookup "opt" query ≡ some "set"
    opt none p q = cc
    opt (some x) p q = elim (Bool-cases (str_eq x "set")) [
      | inl y ↦ p ∙ ap some ((str_eq_iff x "set").0 y)
      | inr n ↦ elim (Bool-cases (str_eq x "get")) [
        | inl g ↦
            absurd (false≢true (sym (entry_of_getter (lookup "type" query) e (rw (n, g) at q)) ∙ a))
        | inr m ↦ (let bad = rw (n, m) at q in cc)
      ]
    ]
