-- ===== src/Utils/Io/Laws.antt =====
-- What the wrappers do over a whole transfer.
use tpi_bmcd.Base.{
  ℕ, ◌+◌, ◌≤◌, ◌≡◌, ◌∙◌, refl, sym, ap, if◌then◌else◌, Bool, true, false, Bool-cases, inl, inr,
  Option, none, some, List, [], ◌∷◌, ◌++◌, length, take, Result, ok, err, arith, length-append,
  length-take,
}
use tpi_bmcd.Utils.Io.{
  Bytes, Hasher, Poll, pending, ready, IoError, checksum_failed, Item, same_bytes, Validator,
  verify_hash, poll_next, WriteMonitor, new_monitor, crc, poll_write,
}
use tpi_bmcd.Utils.Io

-- What a reader has taken from a stream, and how the stream has ended, if it has.
abbrev pub Taken : Type 0
Taken = Bytes × Option (Result IoError (Unit {0}))

abbrev pub in_front : Bytes → Taken → Taken
in_front bs (taken, end) = (bs ++ taken, end)

-- Reading a stream from what its polls answer, as `StreamReader` of crate `tokio_util` does: an empty
-- chunk is skipped.
abbrev pub drain : List (Poll Item) → Taken
drain [] = ([], none)
drain (pending ∷ ps) = drain ps
drain (ready none ∷ ps) = ([], some (ok tt))
drain (ready (some (err e)) ∷ ps) = ([], some (err e))
drain (ready (some (ok [])) ∷ ps) = drain ps
drain (ready (some (ok (b ∷ bs))) ∷ ps) = in_front (b ∷ bs) (drain ps)

abbrev pub has_empty : List (Poll Item) → Bool
has_empty [] = false
has_empty (ready (some (ok [])) ∷ ps) = true
has_empty (p ∷ ps) = has_empty ps

-- The stream as if it ended in place of its first empty chunk.
abbrev pub until_empty : List (Poll Item) → List (Poll Item)
until_empty [] = []
until_empty (ready (some (ok [])) ∷ ps) = ready none ∷ []
until_empty (p ∷ ps) = p ∷ until_empty ps

until_empty_lem : (ps : List (Poll Item)) → has_empty ps ≡ false → until_empty ps ≡ ps
until_empty_lem [] h = refl
until_empty_lem (pending ∷ ps) h = ap (λ l. pending ∷ l) (until_empty_lem ps h)
until_empty_lem (ready none ∷ ps) h = ap (λ l. ready none ∷ l) (until_empty_lem ps h)
until_empty_lem (ready (some (err e)) ∷ ps) h =
    ap (λ l. ready (some (err e)) ∷ l) (until_empty_lem ps h)
until_empty_lem (ready (some (ok [])) ∷ ps) h = absurd cc
until_empty_lem (ready (some (ok (b ∷ bs))) ∷ ps) h =
    ap (λ l. ready (some (ok (b ∷ bs))) ∷ l) (until_empty_lem ps h)

-- What feeding a hasher in parts relies on.
pub record Feeds {R : Type 0} (h : Hasher R) : Type 0 where
  pub nothing : (s : h.State) → h.update s [] ≡ s
  pub parts : (s : h.State) (a b : Bytes) → h.update (h.update s a) b ≡ h.update s (a ++ b)

module _ (h : Hasher Bytes) (feeds : Feeds h) where
  -- Reading through the validator.
  abbrev pub drain_checked : Validator h → List (Poll Item) → Taken
  drain_checked v [] = ([], none)
  drain_checked v (p ∷ ps) =
      let (answer, v') = poll_next h p v in
      let rest = drain_checked v' ps in
      elim answer [
        | pending ↦ rest
        | ready none ↦ ([], some (ok tt))
        | ready (some (err e)) ↦ ([], some (err e))
        | ready (some (ok bs)) ↦ in_front bs rest
      ]

  abbrev pub checked : Bytes → h.State → Taken → Taken
  checked sha s (bs, some (ok tt)) = (
    bs,
    some (if same_bytes (h.finalize (h.update s bs)) sha then ok tt else err checksum_failed),
  )
  checked sha s (bs, end) = (bs, end)

  checked-in_front :
      (sha : Bytes) (s : h.State) (bs : Bytes) (t : Taken)
      → in_front bs (checked sha (h.update s bs) t) ≡ checked sha s (in_front bs t)
  checked-in_front sha s bs (taken, none) = refl
  checked-in_front sha s bs (taken, some (err e)) = refl
  checked-in_front sha s bs (taken, some (ok tt)) = rw (feeds.parts s bs taken) refl

  read_as : (ps : List (Poll Item)) → until_empty ps ≡ (if has_empty ps then until_empty ps else ps)
  read_as ps = elim (Bool-cases (has_empty ps)) [
    | inl e ↦ rw e refl
    | inr e ↦ rw (e, until_empty_lem ps e) refl
  ]

  drain_checked_lem :
      (sha : Bytes) (ps : List (Poll Item)) (s : h.State)
      → drain_checked (record { hasher = s; expected_sha = sha }) ps
        ≡ checked sha s (drain (until_empty ps))
  unfolding poll_next verify_hash
  drain_checked_lem sha [] s = refl
  drain_checked_lem sha (pending ∷ ps) s = drain_checked_lem sha ps s
  drain_checked_lem sha (ready none ∷ ps) s = rw (feeds.nothing s) (ground arith)
  drain_checked_lem sha (ready (some (err e)) ∷ ps) s = refl
  drain_checked_lem sha (ready (some (ok [])) ∷ ps) s = rw (feeds.nothing s) (ground arith)
  drain_checked_lem sha (ready (some (ok (b ∷ bs))) ∷ ps) s =
      ap (in_front (b ∷ bs)) (drain_checked_lem sha ps (h.update s (b ∷ bs)))
      ∙ checked-in_front sha s (b ∷ bs) (drain (until_empty ps))

  -- With a hasher for which feeding in parts is feeding the whole, reading a stream without empty chunks
  -- through the validator takes the bytes that reading the plain stream takes, and ends as it ends,
  -- except that a stream whose digest is not the expected one ends with an error. A stream that has an
  -- empty chunk, which reading the plain stream skips, is read as if it ended there.
  pub drain_checked-new :
      (sha : Bytes) (ps : List (Poll Item))
      → drain_checked (Io.new h sha) ps
        ≡ checked sha h.start (drain (if has_empty ps then until_empty ps else ps))
  unfolding Io.new
  drain_checked-new sha ps =
      drain_checked_lem sha ps h.start
      ∙ ap (λ (l : List (Poll Item)). checked sha h.start (drain l)) (read_as ps)

-- One call of the writer: the buffer, and what the inner writer answers.
abbrev pub Write : Type 0
Write = Bytes × Poll (Result IoError ℕ)

-- The bytes that the inner writer has accepted.
abbrev pub accepted : List Write → Bytes
accepted [] = []
accepted ((buf, ready (ok n)) ∷ ws) = take n buf ++ accepted ws
accepted ((buf, _) ∷ ws) = accepted ws

-- No writer accepts more than it is given.
abbrev pub AllWithin : List Write → Type 0
AllWithin [] = Unit {0}
AllWithin ((buf, ready (ok n)) ∷ ws) = (n ≤ length buf) × AllWithin ws
AllWithin ((buf, _) ∷ ws) = AllWithin ws

module _ (c : Hasher ℕ) where
  abbrev pub run_writes : List Write → WriteMonitor c → WriteMonitor c
  run_writes [] m = m
  run_writes ((buf, answer) ∷ ws) m = run_writes ws (poll_write c answer buf m).1

  written-run_writes :
      (ws : List Write) (m : WriteMonitor c)
      → AllWithin ws
      → (run_writes ws m).written ≡ m.written + length (accepted ws)
  unfolding poll_write
  written-run_writes [] m h = omega arith
  written-run_writes ((buf, pending) ∷ ws) m h = written-run_writes ws m h
  written-run_writes ((buf, ready (err e)) ∷ ws) m h = written-run_writes ws m h
  written-run_writes ((buf, ready (ok n)) ∷ ws) m (fits, h) = omega (
    arith,
    written-run_writes ws (poll_write c (ready (ok n)) buf m).1 h,
    length-append (take n buf) (accepted ws),
    length-take n buf,
  )

  module _ (feeds : Feeds c) where
    digest-run_writes :
        (ws : List Write) (m : WriteMonitor c)
        → (run_writes ws m).digest ≡ c.update m.digest (accepted ws)
    unfolding poll_write
    digest-run_writes [] m = sym (feeds.nothing m.digest)
    digest-run_writes ((buf, pending) ∷ ws) m = digest-run_writes ws m
    digest-run_writes ((buf, ready (err e)) ∷ ws) m = digest-run_writes ws m
    digest-run_writes ((buf, ready (ok n)) ∷ ws) m =
        digest-run_writes ws (poll_write c (ready (ok n)) buf m).1
        ∙ feeds.parts m.digest (take n buf) (accepted ws)

    -- After any calls, failed and partial ones among them, the monitor has counted the bytes that its
    -- writer has accepted, and its checksum is the one of those bytes in one piece.
    pub run_writes_lem :
        (ws : List Write)
        → AllWithin ws
        → let m = run_writes ws (new_monitor c) in
          (m.written ≡ length (accepted ws))
          × (crc c m ≡ c.finalize (c.update c.start (accepted ws)))
    unfolding new_monitor crc
    run_writes_lem ws h = (
      omega (arith, written-run_writes ws (new_monitor c) h),
      ap c.finalize (digest-run_writes ws (new_monitor c)),
    )
