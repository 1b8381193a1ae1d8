-- ===== src/UsbBoot/Drivers/Laws.antt =====
-- What a driver writes to the node before its block device is looked for.
use tpi_bmcd.Base.{
  zero, suc, ◌+◌, ◌%◌, ◌^◌, ◌==◌, if◌then◌else◌, Option, none, some, Option-cases, inl, inr, ◌≡◌,
  ◌∙◌, ap, sym, subst, refl, List, [], ◌∷◌, ◌++◌, append_assoc, append-nil, String, ℕ, Result, ok,
  err, arith,
}
use tpi_bmcd.Base.Exec.{bind-ok}
use tpi_bmcd.Utils.Devices.{get_device_path}
use tpi_bmcd.UsbBoot.{
  BootEntry, BootHeaderEntry, prepend, tagged, slice, boot_entries, parse_boot_header_entry,
  UsbBootError, Device, rockusb_boot, BootMode, maskrom, loader, boot_mode, BootData, find_first,
}
use tpi_bmcd.Utils.Io.{Bytes}
use tpi_bmcd.UsbBoot.Drivers.{
  both, UsbOp, open_device, write_maskrom_area, sleep_ms, DriverError, Ops, Loader, Bus,
  parse_boot_entries, try_op, load_boot_entries, download_boot, plugged,
  backend_load_as_block_device, rockusb_load_as_block_device, load_as_block_device, device_path,
  with_descriptor,
}

-- Every entry is written to its area and given its time.
abbrev pub plan : List BootData → Ops
plan [] = []
plan ((area, delay, bytes) ∷ entries) =
    write_maskrom_area area bytes ∷ sleep_ms delay ∷ plan entries

module _ (parse_boot_entry : ℕ → Option BootEntry) (blob : Bytes) (area step : ℕ) where
  -- The data of the first `count` entries from `place` on, up to the first of size 0; `none` if an entry
  -- or its data ends behind the loader.
  abbrev pub before_empty : ℕ → ℕ → Option (List BootData)
  before_empty zero place = some []
  before_empty (suc count) place = elim (parse_boot_entry place) [
    | none ↦ none
    | some entry ↦
        (let next = before_empty count ((place + step) % 2 ^ 32) in
          if entry.size == 0
          then some []
          else prepend (tagged area entry.data_delay (slice blob entry.data_offset entry.data_size))
              next)
  ]

  -- An entry of size 0 is read again for each one that is left.
  stays_empty :
      (count place : ℕ) (entry : BootEntry)
      → parse_boot_entry place ≡ some entry
      → entry.size ≡ 0
      → boot_entries parse_boot_entry blob area step count place ≡ some []
  unfolding boot_entries
  stays_empty zero place entry e empty = refl
  stays_empty (suc count) place entry e empty =
      ground (arith, e, empty, stays_empty count place entry e empty)

  boot_entries-before_empty :
      (count place : ℕ)
      → boot_entries parse_boot_entry blob area step count place ≡ before_empty count place
  unfolding boot_entries
  boot_entries-before_empty zero place = refl
  boot_entries-before_empty (suc count) place = elim (Option-cases (parse_boot_entry place)) [
    | inl e ↦ ground (arith, e)
    | inr (entry, e) ↦ ground (
      arith,
      e,
      stays_empty count place entry e,
      boot_entries-before_empty count ((place + step) % 2 ^ 32),
    )
  ]

-- The entries of an area of the loader that are written, by its entry of the header.
abbrev pub area_entries : Loader → ℕ → BootHeaderEntry → Option (List BootData)
area_entries file area header =
    before_empty file.parse_boot_entry file.blob area header.entry_size header.count header.offset

-- What is written is what stands in front of the first empty entry of each of the two areas.
abbrev pub Parsed : Loader → List BootData → Type 0
Parsed file entries =
    (headers : BootHeaderEntry × BootHeaderEntry) × (file.header ≡ some headers)
    × (first : List BootData) × (area_entries file 0x471 headers.0 ≡ some first)
    × (second : List BootData) × (area_entries file 0x472 headers.1 ≡ some second)
    × (entries ≡ first ++ second)

both-Parsed :
    (file : Loader) (headers : BootHeaderEntry × BootHeaderEntry) (a b : Option (List BootData))
    (entries : List BootData)
    → file.header ≡ some headers
    → area_entries file 0x471 headers.0 ≡ a
    → area_entries file 0x472 headers.1 ≡ b
    → both a b ≡ some entries
    → Parsed file entries
unfolding both
both-Parsed file headers (some a) (some b) entries there e f h =
    (headers, there, a, e, b, f, ground (arith, h))
both-Parsed file headers none b entries there e f h = absurd cc
both-Parsed file headers (some a) none entries there e f h = absurd cc

parse_boot_entries-Parsed :
    (file : Loader) (entries : List BootData)
    → parse_boot_entries file ≡ ok entries
    → Parsed file entries
unfolding parse_boot_entries parse_boot_header_entry
parse_boot_entries-Parsed file entries h = elim (Option-cases file.header) [
  | inl none_there ↦ absurd (let bad = rw none_there at h in cc)
  | inr (headers, there) ↦
      (let entries_of = λ (area : ℕ) (header : BootHeaderEntry).
          boot_entries-before_empty file.parse_boot_entry file.blob area header.entry_size
            header.count header.offset in
        both-Parsed file headers _ _ entries there (sym (entries_of 0x471 headers.0))
          (sym (entries_of 0x472 headers.1)) (ground (arith, there, h)))
]

module _ (bus : Bus) where
  try_op_lem :
      (op : UsbOp) (ops : Ops)
      → (try_op bus op ops).0 ≡ ok tt
      → (try_op bus op ops).1 ≡ ops ++ (op ∷ [])
  unfolding try_op
  try_op_lem op ops h = ground arith

  -- Loading that succeeds has written every entry.
  load_boot_entries_lem :
      (entries : List BootData) (ops : Ops)
      → (load_boot_entries bus entries ops).0 ≡ ok tt
      → (load_boot_entries bus entries ops).1 ≡ ops ++ plan entries
  unfolding load_boot_entries
  load_boot_entries_lem [] ops h = sym (append-nil ops)
  load_boot_entries_lem ((area, delay, bytes) ∷ entries) ops h =
      let write = write_maskrom_area area bytes in
      let (a, e, r) = bind-ok (try_op bus write) _ ops h in
      let wrote = try_op_lem write ops e in
      let ops' = (try_op bus write ops).1 ++ (sleep_ms delay ∷ []) in
      let rest = load_boot_entries_lem entries ops' (sym (ap (λ x. x.0) r) ∙ h) in
      ap (λ x. x.1) r ∙ rest ∙ simp (wrote, append_assoc)

  -- What loading a node has done when it succeeds.
  download_boot_lem :
      (file : Loader) (ops : Ops)
      → (download_boot bus file ops).0 ≡ ok tt
      → (entries : List BootData) × (parse_boot_entries file ≡ ok entries)
        × ((download_boot bus file ops).1 ≡ ops ++ (plan entries ++ (sleep_ms 5000 ∷ [])))
  unfolding download_boot
  download_boot_lem file ops h =
      let (entries, e, r) = bind-ok (λ (o : Ops). (parse_boot_entries file, o)) _ ops h in
      let h' = sym (ap (λ x. x.0) r) ∙ h in
      let (a, e', r') = bind-ok (load_boot_entries bus entries) _ ops h' in
      (
        entries,
        e,
        ap (λ x. x.1) r
            ∙ ap (λ x. x.1) r'
            ∙ simp (load_boot_entries_lem entries ops e', append_assoc),
      )

  -- What is tried on a device of either driver, given how it was found.
  abbrev pub Prepared : Loader → BootMode → Ops → Type 0
  Prepared file loader ops = ops ≡ []
  Prepared file maskrom ops =
      (entries : List BootData) × Parsed file entries
      × (ops ≡ open_device ∷ (plan entries ++ (sleep_ms 5000 ∷ [])))

  plugged_lem :
      (file : Loader) (mode : BootMode)
      → (plugged bus file mode []).0 ≡ ok tt
      → Prepared file mode (plugged bus file mode []).1
  plugged_lem file loader h = refl
  plugged_lem file maskrom h =
      let (a, e, r) = bind-ok (try_op bus open_device) _ [] h in
      let h' = sym (ap (λ x. x.0) r) ∙ h in
      let (entries, parsed, done) = download_boot_lem file (try_op bus open_device []).1 h' in
      (
        entries,
        parse_boot_entries-Parsed file entries parsed,
        ap (λ x. x.1) r ∙ done ∙ simp (try_op_lem open_device [] e),
      )

  path_found :
      (vendors : List String) (ops : Ops) (path : String)
      → (device_path bus vendors ops).0 ≡ ok path
      → (get_device_path vendors (bus.block ops) ≡ ok path)
        × ((device_path bus vendors ops).1 ≡ ops)
  path_found vendors ops path h = ground arith

  described :
      (file : Loader) (r : Result UsbBootError ℕ)
      → (with_descriptor bus file r []).0 ≡ ok tt
      → (n : ℕ) × (r ≡ ok n) × Prepared file (boot_mode n) (with_descriptor bus file r []).1
  described file (ok n) h = (n, refl, plugged_lem file (boot_mode n) h)
  described file (err e) h = absurd cc

  rockusb_lem :
      (file : Loader) (device : Device) (path : String)
      → (backend_load_as_block_device bus file rockusb_boot device []).0 ≡ ok path
      → let ops = (backend_load_as_block_device bus file rockusb_boot device []).1 in
        (n : ℕ) × (bus.sub_minor device ≡ ok n)
        × Prepared file (boot_mode n) ops
        × (get_device_path ("Rockchip" ∷ []) (bus.block ops) ≡ ok path)
  unfolding backend_load_as_block_device rockusb_load_as_block_device
  rockusb_lem file device path h =
      let (a, e, r) = bind-ok (with_descriptor bus file (bus.sub_minor device)) _ [] h in
      let (n, known, prepared) = described file (bus.sub_minor device) e in
      let ops = (with_descriptor bus file (bus.sub_minor device) []).1 in
      let (there, same) = path_found ("Rockchip" ∷ []) ops path (sym (ap (λ x. x.0) r) ∙ h) in
      let after = ap (λ x. x.1) r ∙ same in
      (
        n,
        known,
        subst (Prepared file (boot_mode n)) (sym after) prepared,
        ap (λ o. get_device_path ("Rockchip" ∷ []) (bus.block o)) after ∙ there,
      )

  on_rockusb :
      (file : Loader) (devices : Result UsbBootError (List Device)) (device : Device)
      → find_first devices ≡ ok (device, rockusb_boot)
      → load_as_block_device bus file devices []
        ≡ backend_load_as_block_device bus file rockusb_boot device []
  unfolding load_as_block_device
  on_rockusb file devices device first = ground (arith, first)

  -- When a Rockchip device was found first and a path is returned, the device had a descriptor. In
  -- loader mode nothing was done to it; in maskrom mode the entries of the loader's first area and then
  -- those of its second were written once, in their order and each followed by its delay, and then five
  -- seconds passed. Of each area these are the entries in front of its first one of size 0: what stands
  -- behind that one is never written. The path is that of the one block device of that vendor which is
  -- there then.
  pub load_as_block_device_lem :
      (file : Loader) (devices : Result UsbBootError (List Device)) (device : Device)
      (path : String)
      → find_first devices ≡ ok (device, rockusb_boot)
      → (load_as_block_device bus file devices []).0 ≡ ok path
      → (sub_minor : ℕ) × (bus.sub_minor device ≡ ok sub_minor)
        × Prepared file (boot_mode sub_minor) (load_as_block_device bus file devices []).1
        × (get_device_path
              ("Rockchip" ∷ [])
              (bus.block (load_as_block_device bus file devices []).1)
            ≡ ok path)
  load_as_block_device_lem file devices device path first h =
      let same = on_rockusb file devices device first in
      subst
        (λ (x : Result DriverError String × Ops).
          (n : ℕ) × (bus.sub_minor device ≡ ok n)
          × Prepared file (boot_mode n) x.1
          × (get_device_path ("Rockchip" ∷ []) (bus.block x.1) ≡ ok path))
        (sym same) (rockusb_lem file device path (sym (ap (λ x. x.0) same) ∙ h))
