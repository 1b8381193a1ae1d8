-- ===== src/Tests/Texts.antt =====
-- Texts with a character outside of the basic plane, and a transfer whose digest is its content.
use tpi_bmcd.Base.{
  ◌≡◌, refl, false, none, some, List, [], ◌∷◌, ◌++◌, ok, append-nil, append_assoc, arith,
}
use tpi_bmcd.Utils.Utf.{string_from_utf16, string_from_utf32}
use tpi_bmcd.Utils.Utf.Laws.{encode_utf16, encode_utf32, decoders_invert, decoders_mend}
use tpi_bmcd.Utils.Io.{Bytes, Hasher, Poll, pending, ready, Item}
use tpi_bmcd.Utils.Io
use tpi_bmcd.Utils.Io.Laws.{Feeds, drain_checked, drain_checked-new}

decoders_invert_example :
    (string_from_utf16 (encode_utf16 false (0xe9 ∷ 0x1f600 ∷ [])) false ≡ 0xe9 ∷ 0x1f600 ∷ [])
    × (string_from_utf32 (encode_utf32 false (0xe9 ∷ 0x1f600 ∷ [])) false ≡ 0xe9 ∷ 0x1f600 ∷ [])
decoders_invert_example = decoders_invert false (0xe9 ∷ 0x1f600 ∷ []) refl

-- A lone high surrogate and a letter, and the first bytes of one more.
decoders_mend_example :
    (string_from_utf16 (0xd8 ∷ 0x00 ∷ 0x00 ∷ 0x41 ∷ 0x00 ∷ []) false ≡ 0xfffd ∷ 0x41 ∷ 0xfffd ∷ [])
    × (string_from_utf32 (encode_utf32 false (0xd800 ∷ 0x41 ∷ []) ++ 0x00 ∷ []) false
        ≡ 0xfffd ∷ 0x41 ∷ 0xfffd ∷ [])
decoders_mend_example =
    decoders_mend false (0xd800 ∷ 0x41 ∷ []) 0x00 (0x00 ∷ []) refl refl (omega arith) (omega arith)

-- A digest that keeps all bytes.
abbrev pub verbatim : Hasher Bytes
verbatim = record { State = Bytes; start = []; update = λ s bytes. s ++ bytes; finalize = λ s. s }

verbatim-Feeds : Feeds verbatim
verbatim-Feeds = record { nothing = append-nil; parts = append_assoc }

abbrev answers : List (Poll Item)
answers = pending ∷ ready (some (ok (1 ∷ 2 ∷ []))) ∷ ready (some (ok (3 ∷ []))) ∷ ready none ∷ []

drain_checked-new_example :
    drain_checked verbatim verbatim-Feeds (Io.new verbatim (1 ∷ 2 ∷ 3 ∷ [])) answers
    ≡ (1 ∷ 2 ∷ 3 ∷ [], some (ok tt))
drain_checked-new_example = drain_checked-new verbatim verbatim-Feeds (1 ∷ 2 ∷ 3 ∷ []) answers
