-- ===== src/Board/Laws.antt =====
-- The EEPROM record is read back as it was written, and its checksum holds.
use tpi_bmcd.Base.{
  ℕ, ◌-◌, ◌^◌, ◌<◌, ◌≤◌, ◌≡◌, ◌∙◌, sym, ap, true, List, ◌++◌, length, take, drop, replicate,
  length-append, length-take, length-replicate, take-append, append_assoc, some, take_prefix,
  drop_prefix, take_all, arith,
}
use tpi_bmcd.Board.{BoardInfo, from_bytes, write_back, verify_eeprom, payload, header_ver, padded}

-- Every field fits its width.
pub record IsWellFormed (b : BoardInfo) : Type 0 where
  pub reserved : b.reserved < 2 ^ 16
  pub hw_version : b.hw_version < 2 ^ 16
  pub factory_date : b.factory_date < 2 ^ 16
  pub factory_serial : length b.factory_serial ≡ 16
  pub product_name : length b.product_name ≡ 16
  pub mac : length b.mac ≡ 6

-- The three arrays at the end, cut apart again.
abbrev arrays : BoardInfo → List ℕ
arrays b = b.factory_serial ++ (b.product_name ++ b.mac)

module _ (b : BoardInfo) (fits : IsWellFormed b) where
  length-arrays : length (arrays b) ≡ 38
  length-arrays = omega (
    arith,
    length-append b.factory_serial (b.product_name ++ b.mac),
    length-append b.product_name b.mac,
    fits.factory_serial,
    fits.product_name,
    fits.mac,
  )

  serial_back : take 16 (arrays b) ≡ b.factory_serial
  serial_back = take_prefix 16 b.factory_serial (b.product_name ++ b.mac) fits.factory_serial

  name_back : take 16 (drop 16 (arrays b)) ≡ b.product_name
  name_back =
      rw (drop_prefix 16 b.factory_serial (b.product_name ++ b.mac) fits.factory_serial)
        (take_prefix 16 b.product_name b.mac fits.product_name)

  mac_back : take 6 (drop 32 (arrays b)) ≡ b.mac
  mac_back =
      ap (λ (l : List ℕ). take 6 (drop 32 l))
        (sym (append_assoc b.factory_serial b.product_name b.mac))
      ∙ rw
          (drop_prefix 32 (b.factory_serial ++ b.product_name) b.mac (
            omega (
              arith,
              length-append b.factory_serial b.product_name,
              fits.factory_serial,
              fits.product_name,
            )))
          (take_all 6 b.mac (omega (arith, fits.mac)))

module _ (checksum : List ℕ → ℕ) (b : BoardInfo) (fits : IsWellFormed b)
    (crc_u32 : checksum (payload b) < 2 ^ 32) where
  -- A record whose fields fit, with a checksum of 32 bits, is written as 50 bytes; they are read back as the same record, with the
  -- current header version and the checksum of the payload; and verification accepts them.
  pub from_bytes-write_back :
      let (bytes, b') = write_back checksum b in
      (from_bytes bytes
        ≡ some (record b { crc32 = checksum (payload b); hdr_version = header_ver }))
      × (length bytes ≡ 50)
      × (verify_eeprom checksum bytes b' ≡ true)
  unfolding from_bytes write_back verify_eeprom
  from_bytes-write_back = (
    ground (
      arith,
      length-arrays b fits,
      take_all 38 (arrays b),
      serial_back b fits,
      name_back b fits,
      mac_back b fits,
      fits.reserved,
      fits.hw_version,
      fits.factory_date,
      crc_u32,
    ),
    omega (arith, length-arrays b fits),
    ground (arith, length-arrays b fits, take_all 38 (arrays b)),
  )

-- Whatever the text, the padded field has 16 bytes and begins with the text's first 16.
pub padded_lem :
    (text : List ℕ)
    → (length (padded text) ≡ 16) × (take (length (take 16 text)) (padded text) ≡ take 16 text)
unfolding padded
padded_lem text =
    let kept = take 16 text in
    let short : length kept ≤ 16 = omega (arith, length-take 16 text) in
    let whole : length (padded text) ≡ 16 =
      unfold padded in
      omega (
        arith,
        length-append kept (replicate (16 - length kept) 0),
        length-replicate {A = ℕ} (16 - length kept) 0,
      ) in
    (whole, unfold padded in take-append kept (replicate (16 - length kept) 0))
