-- ===== src/Api/Cooling.antt =====
-- The handler of bmcd/src/api/legacy.rs that sets the speed of a cooling device.
use tpi_bmcd.Base.{ℕ, ◌^◌, String, Result, ok}
use tpi_bmcd.Base.Results.{◌>>=◌, ok_or}
use tpi_bmcd.Base.Text.{parse_unsigned}
use tpi_bmcd.Base.Assoc.{lookup, text_key}
use tpi_bmcd.Hal.Device.{Env}
use tpi_bmcd.App.Cooling
use tpi_bmcd.Api.{Query, LegacyResponse, bad_request, Handler, run, or_refuse}

-- `bits` is the width of the target's `c_ulong`.
unfoldable pub speed_param : ℕ → Query → Result LegacyResponse (String × ℕ)
speed_param bits query =
    ok_or (lookup "device" query) (bad_request "Missing `device` parameter") >>= λ device.
    ok_or (lookup "speed" query) (bad_request "Missing `speed` parameter") >>= λ speed_str.
    ok_or (parse_unsigned (2 ^ bits) speed_str) (bad_request "`speed` parameter is not a number")
    >>= λ speed. ok (device, speed)

unfoldable pub set_cooling_info : Env → ℕ → Query → Handler
set_cooling_info env bits query =
    or_refuse (speed_param bits query)
      λ (device, speed). run (Cooling.set_cooling_speed env device speed)
