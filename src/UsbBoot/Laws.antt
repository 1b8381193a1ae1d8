-- ===== src/UsbBoot/Laws.antt =====
-- Which devices are served, and which boot entries are loaded.
use tpi_bmcd.Base.{
  ℕ, zero, suc, ◌+◌, ◌%◌, ◌^◌, ◌≡◌, ◌≢◌, refl, ◌||◌, Bool, true, false, Option, none, some, List,
  [], ◌∷◌, ok, arith, Option-cases, inl, inr,
}
use tpi_bmcd.Utils.Io.{Bytes}
use tpi_bmcd.UsbBoot.{
  Device, Backend, rpi_boot, rockusb_boot, supports, first_device, first_backend, find_first,
  BootEntry, slice, boot_entries,
}

abbrev pub any_supported : Backend → List Device → Bool
any_supported backend [] = false
any_supported backend (dev ∷ devices) = supports backend dev || any_supported backend devices

some_device :
    (backend : Backend) (devices : List Device) (dev : Device)
    → first_device backend devices ≡ some dev
    → (supports backend dev ≡ true) × (any_supported backend devices ≡ true)
unfolding first_device
some_device backend [] dev e = absurd cc
some_device backend (d ∷ devices) dev e = ground (arith, some_device backend devices dev)

no_device :
    (backend : Backend) (devices : List Device)
    → first_device backend devices ≡ none
    → any_supported backend devices ≡ false
unfolding first_device
no_device backend [] e = refl
no_device backend (d ∷ devices) e = ground (arith, no_device backend devices)

abbrev pub is_rpi : Backend → Bool
is_rpi rpi_boot = true
is_rpi rockusb_boot = false

-- A device that is found is one that its driver supports, and the Raspberry Pi driver has it exactly if
-- any device on the bus is one of its own.
find_first-supported :
    (devices : List Device) (dev : Device) (backend : Backend)
    → find_first (ok devices) ≡ ok (dev, backend)
    → (supports backend dev ≡ true) × (is_rpi backend ≡ any_supported rpi_boot devices)
unfolding find_first first_backend
find_first-supported devices dev backend e = elim (Option-cases (first_device rpi_boot devices)) [
  | inr (d, p) ↦ ground (arith, some_device rpi_boot devices d p)
  | inl p ↦ elim (Option-cases (first_device rockusb_boot devices)) [
    | inr (d, q) ↦
        ground (arith, some_device rockusb_boot devices d q, no_device rpi_boot devices p)
    | inl q ↦ absurd (ground arith)
  ]
]

module _ (parse_boot_entry : ℕ → Option BootEntry) (blob : Bytes) (entry_type step : ℕ) where
  stuck_at :
      (count start : ℕ) (entry : BootEntry)
      → parse_boot_entry start ≡ some entry
      → entry.size ≡ 0
      → boot_entries parse_boot_entry blob entry_type step count start ≡ some []
  unfolding boot_entries
  stuck_at zero start entry e empty = refl
  stuck_at (suc count) start entry e empty = ground (arith, stuck_at count start entry e empty)

  -- Entries that are in use, and whose data is in the blob, are loaded until the first that is empty;
  -- that one hides all that follow, since it is looked at again and again.
  empty_entry_hides :
      (count start : ℕ) (first empty : BootEntry) (bytes : Bytes)
      → parse_boot_entry start ≡ some first
      → first.size ≢ 0
      → slice blob first.data_offset first.data_size ≡ some bytes
      → parse_boot_entry ((start + step) % 2 ^ 32) ≡ some empty
      → empty.size ≡ 0
      → boot_entries parse_boot_entry blob entry_type step (suc count) start
        ≡ some ((entry_type, first.data_delay, bytes) ∷ [])
  unfolding boot_entries
  empty_entry_hides count start first empty bytes e used cut e' unused =
      ground (arith, stuck_at count ((start + step) % 2 ^ 32) empty e' unused)
