-- ===== src/Upgrade/Copy/Laws.antt =====
-- What a successful transfer says about the data on the node.
use tpi_bmcd.Base.{ℕ, ◌≡◌, ◌∙◌, sym, true, some, length, ok, arith, inl, inr}
use tpi_bmcd.Base.Results.{Result-cases}
use tpi_bmcd.Utils.Io.{Bytes, Hasher}
use tpi_bmcd.Utils.Io.Laws.{Feeds, AllWithin, accepted, run_writes_lem}
use tpi_bmcd.Upgrade.Copy.{
  exhausted, Copy, Run, transfer, copy_or_cancel, try_write_node, try_validate_crc,
}

module _ (c : Hasher ℕ) (feeds : Feeds c) where
  abbrev checksum : Bytes → ℕ
  checksum bytes = c.finalize (c.update c.start bytes)

  write_ok :
      (copy : Copy) (k x : ℕ)
      → AllWithin copy.writes
      → try_write_node c copy ≡ ok (k, x)
      → (copy.ending ≡ exhausted)
        × (k ≡ length (accepted copy.writes))
        × (x ≡ checksum (accepted copy.writes))
  unfolding try_write_node copy_or_cancel
  write_ok copy k x within e = ground (arith, run_writes_lem c feeds copy.writes within)

  validate_ok :
      (copy : Copy) (x : ℕ)
      → AllWithin copy.writes
      → try_validate_crc c x copy ≡ ok tt
      → (copy.ending ≡ exhausted) × (x ≡ checksum (accepted copy.writes))
  unfolding try_validate_crc copy_or_cancel
  validate_ok copy x within e = ground (arith, run_writes_lem c feeds copy.writes within)

  both_parts :
      (run : Run)
      → transfer c true run ≡ some (ok tt)
      → (k : ℕ) × (x : ℕ) × (try_write_node c run.writing ≡ ok (k, x))
        × (try_validate_crc c x (run.reading k) ≡ ok tt)
  unfolding transfer
  both_parts run e = elim (Result-cases (try_write_node c run.writing)) [
    | inl ((k, x), p) ↦ (k, x, p, ground arith)
    | inr (x, p) ↦ absurd (ground arith)
  ]

  -- A transfer with validation that succeeds has copied the source to its end, and the bytes that came
  -- back from the node, of which as many were asked for as the node had accepted, have the checksum of
  -- the accepted bytes.
  pub transfer_validated :
      (run : Run)
      → let sent = accepted run.writing.writes in
        let back = run.reading (length sent) in
        AllWithin run.writing.writes
        → AllWithin back.writes
        → transfer c true run ≡ some (ok tt)
        → (run.writing.ending ≡ exhausted)
          × (back.ending ≡ exhausted)
          × (checksum sent ≡ checksum (accepted back.writes))
  transfer_validated run within within' e =
      let (k, x, p, q) = both_parts run e in
      let (ended, counted, summed) = write_ok run.writing k x within p in
      let q' = rw counted at q in
      let (ended', summed') =
        validate_ok (run.reading (length (accepted run.writing.writes))) x within' q' in
      (ended, ended', sym summed ∙ summed')
