-- ===== src/Api/Usb/Laws.antt =====
-- What the USB handlers set and report.
use tpi_bmcd.Base.{
  ℕ, zero, suc, ◌<◌, ◌≡◌, ◌≢◌, ◌∙◌, ◌==◌, ==_iff, ◌↔◌, sym, ap, refl, true, if◌then◌else◌, Option,
  none, some, Result, ok, err, is_ok, arith,
}
use tpi_bmcd.Base.Signed.{ℤ, pos, negsuc, low_bits}
use tpi_bmcd.Hal.{
  NodeId, UsbRoute, bmc, alternative_port, UsbMode, host, device, flash, from_api_mode, mode_of,
}
use tpi_bmcd.Hal.Device.{Env, Fault}
use tpi_bmcd.App.State.{App, Db}
use tpi_bmcd.App.Usb.{configure_usb}
use tpi_bmcd.App.Usb.Laws.{db-configure_usb}
use tpi_bmcd.Api.{Query, success, replied, panicked, from_result, get_node_param}
use tpi_bmcd.Api.Usb.{
  usb_config, shown, api_route, mode_param, usb_report, set_usb_mode, get_usb_mode, configure,
}

shown-usb_config :
    (n : NodeId) (mode : UsbMode) (route : UsbRoute)
    → shown (usb_config n mode route) ≡ (n, mode, route)
unfolding shown usb_config
shown-usb_config n host route = refl
shown-usb_config n flash route = refl
shown-usb_config n device bmc = refl
shown-usb_config n device alternative_port = refl

low_bits-lt : (v : ℤ) → low_bits v 4 < 4
low_bits-lt (pos x) = omega arith
low_bits-lt (negsuc x) = omega arith

no_mode : (x : ℕ) → x < 4 → (mode_of x ≡ none) ↔ (x ≡ 3)
unfolding mode_of
no_mode zero h = ground arith
no_mode (suc zero) h = ground arith
no_mode (suc (suc zero)) h = ground arith
no_mode (suc (suc (suc zero))) h = ground arith
no_mode (suc (suc (suc (suc x)))) h = absurd (omega arith)

from_api_mode_iff : (v : ℤ) → (from_api_mode v ≡ none) ↔ (low_bits v 4 ≡ 3)
unfolding from_api_mode
from_api_mode_iff v = no_mode (low_bits v 4) (low_bits-lt v)

succeeded :
    (r : Result Fault (Unit {0}))
    → replied (from_result r) ≡ replied (success none)
    → is_ok r ≡ true
succeeded (ok _) h = refl
succeeded (err e) h = cc

module _ (env : Env) where
  -- A set request that succeeds is what a get request then reports: the node, the mode and the route
  -- of the parameters.
  pub get_usb_mode-set_usb_mode :
      (query : Query) (n : NodeId) (v : ℤ) (mode : UsbMode) (a : App)
      → get_node_param query ≡ ok n
      → mode_param query ≡ ok v
      → from_api_mode v ≡ some mode
      → (set_usb_mode env query a).0 ≡ replied (success none)
      → let b = (set_usb_mode env query a).1 in
        (get_usb_mode env b).0 ≡ replied (usb_report (n, mode, api_route v) b.pins.usb_switch)
  unfolding set_usb_mode get_usb_mode
  get_usb_mode-set_usb_mode query n v mode a p q r done =
      let config = usb_config n mode (api_route v) in
      let fine = succeeded (configure_usb env config a).0 (rw (p, q, r) at done) in
      let stored : (configure_usb env config a).1.db ≡ record a.db { usb_config = config } =
        db-configure_usb env config a ∙ rw fine refl in
      let kept : shown (configure_usb env config a).1.db.usb_config ≡ (n, mode, api_route v) =
        ap (λ (d : Db). shown d.usb_config) stored ∙ shown-usb_config n mode (api_route v) in
      rw (p, q, r, kept) refl

  configure_lem :
      (n : NodeId) (v : ℤ) (a : App) (o : Option UsbMode)
      → from_api_mode v ≡ o
      → let (r, b) = configure env n v o a in
        ((r ≡ panicked) ↔ (low_bits v 4 ≡ 3)) × ((if low_bits v 4 == 3 then b else a) ≡ a)
  configure_lem n v a none e = ((λ h. (from_api_mode_iff v).0 e, λ h. refl), ground arith)
  configure_lem n v a (some mode) e =
      let apart : low_bits v 4 ≢ 3 = λ h. (let bad = sym ((from_api_mode_iff v).1 h) ∙ e in cc) in
      ((λ h. cc, λ h. absurd (apart h)), ground (arith, apart, ==_iff (low_bits v 4) 3))

  -- A set request with a node and a mode panics exactly if the mode's lowest two bits are both set, and
  -- then changes nothing. Modes 3 and 7 are such.
  set_usb_mode_panics :
      (query : Query) (n : NodeId) (v : ℤ) (a : App)
      → get_node_param query ≡ ok n
      → mode_param query ≡ ok v
      → let (r, b) = set_usb_mode env query a in
        ((r ≡ panicked) ↔ (low_bits v 4 ≡ 3)) × ((if low_bits v 4 == 3 then b else a) ≡ a)
  unfolding set_usb_mode
  set_usb_mode_panics query n v a p q = rw (p, q) (configure_lem n v a (from_api_mode v) refl)
