-- ===== src/Upgrade.antt =====
-- bmcd/src/streaming_data_service/data_transfer.rs, app/upgrade_worker.rs and app/transfer_action.rs:
-- where the data of an upgrade comes from, and what is done with it. This file is about the source.
pub mod Path
pub mod Copy
pub mod Flash
pub mod Update
pub mod Request
use tpi_bmcd.Base.{
  ℕ, ◌^◌, ◌*◌, ◌-◌, ◌%◌, Bool, true, false, if◌then◌else◌, String, Option, none, some, List, [],
  ◌∷◌, Result, ok, err,
}
use tpi_bmcd.Base.Results.{ok_or, unwrap_or, ◌>>=◌}
use tpi_bmcd.Base.Text.{parse_unsigned}
use tpi_bmcd.Hal.Device.{Fault}
use tpi_bmcd.Utils.Io.{Bytes, IoError}
use tpi_bmcd.Upgrade.Path.{file_name, has_extension}
use tpi_bmcd.Upgrade.Path

-- `anyhow::Error`, by where it comes from; the texts of contexts are left out.
pub data Failure : Type 0 where
  invalid_path no_content_length unreadable_content_length content_length_not_a_number : Failure
  http_request_failed update_failed : Failure
  crc_error : ℕ → ℕ → Failure
  io : IoError → Failure
  bmc_fault : Fault → Failure

-- The header `content-length` of a response, if it has one, as a text if it can be one.
pub record Response : Type 0 where
  pub content_length : Option (Option String)

-- `sender` and `receiver` tell whether that half of the channel is still there.
pub data DataTransfer : Type 0 where
  local : String → DataTransfer
  remote : String → ℕ → Option Bytes → Bool → Bool → DataTransfer
  url : String → Option Bytes → Option Response → DataTransfer

-- `DataTransfer::remote`; the capacity of the channel is left out.
unfoldable pub new_remote : String → ℕ → Option Bytes → DataTransfer
new_remote name size sha256 = remote name size sha256 true true

-- What the crates behind a url tell: the last segment of its path and its host, if any, and the answer
-- to a GET request.
pub record Site : Type 0 where
  pub last_segment : Option String
  pub host_str : Option String
  pub answer : Result IoError Response

abbrev or_else {ℓ} : {A : Type ℓ} → Option A → Option A → Option A
or_else none o = o
or_else (some a) o = some a

unfoldable pub new_url : Site → Option Bytes → Result Failure DataTransfer
new_url site sha256 = elim site.answer [
  | ok response ↦
      ok (
        url (unwrap_or (or_else site.last_segment site.host_str) "http_file") sha256
          (some response))
  | err e ↦ err http_request_failed
]

-- `DataTransfer::file_name`
unfoldable pub transfer_name : DataTransfer → Result Failure String
transfer_name (local path) = ok_or (file_name path) invalid_path
transfer_name (remote name _ _ _ _) = ok name
transfer_name (url name _ _) = ok name

-- The files that a path may name: opening one gives its size.
abbrev pub Files : Type 0
Files = String → Result IoError ℕ

abbrev opened : Result IoError ℕ → Result Failure ℕ
opened (ok n) = ok n
opened (err e) = err (io e)

abbrev parsed : Option String → Result Failure ℕ
parsed none = err unreadable_content_length
parsed (some str) = ok_or (parse_unsigned (2 ^ 64) str) content_length_not_a_number

-- `none` is the panic of the `expect`.
unfoldable pub size : Files → DataTransfer → Option (Result Failure ℕ)
size files (local path) = some (opened (files path))
size files (remote _ n _ _ _) = some (ok n)
size files (url _ _ none) = none
size files (url _ _ (some response)) =
    some (ok_or response.content_length no_content_length >>= parsed)

-- What a reader is made of: the digest that its bytes have to have, if any, and, if they are decoded as
-- xz, the memory limit.
pub record Reader : Type 0 where
  pub expected_sha : Option Bytes
  pub xz_limit : Option ℕ

-- `sysconf`'s numbers of available pages and bytes of a page; either may be unknown.
pub record Memory : Type 0 where
  pub pages : Result IoError (Option ℕ)
  pub page_size : Result IoError (Option ℕ)

unfoldable pub available_memory : Memory → Result IoError ℕ
available_memory mem = mem.pages >>= λ physical_pages. mem.page_size >>= λ page_size.
    ok (elim physical_pages [
      | none ↦ 2 ^ 64 - 1
      | some pages ↦ elim page_size [ none ↦ 2 ^ 64 - 1 | some size ↦ size * pages % 2 ^ 64 ]
    ])

abbrev mem_limit : Result IoError ℕ → ℕ
mem_limit (ok n) = n
mem_limit (err e) = 50 * 1024 * 1024

unfoldable pub with_decompression_support : Memory → String → Option Bytes → Reader
with_decompression_support mem file sha = record {
  expected_sha = sha;
  xz_limit = if has_extension file "xz" then some (mem_limit (available_memory mem)) else none;
}

unfoldable pub build_reader_object : Memory → String → Option Bytes → Reader
build_reader_object mem name none = with_decompression_support mem name none
build_reader_object mem name (some sha) = with_decompression_support mem name (some sha)

-- `none` is a panic: the receiver or the response has been taken.
unfoldable pub reader :
    Memory → Files → DataTransfer → Option (Result Failure Reader) × DataTransfer
reader mem files (local path) = (
  some (elim (files path) [
    | ok n ↦ ok (with_decompression_support mem path none)
    | err e ↦ err (io e)
  ]),
  local path,
)
reader mem files (remote name n sha256 sender true) =
    (some (ok (build_reader_object mem name sha256)), remote name n sha256 sender false)
reader mem files (remote name n sha256 sender false) = (none, remote name n sha256 sender false)
reader mem files (url name sha256 (some response)) =
    (some (ok (build_reader_object mem name sha256)), url name sha256 none)
reader mem files (url name sha256 none) = (none, url name sha256 none)

-- Whether there is a sender, and the transfer without it.
unfoldable pub sender_half : DataTransfer → Bool × DataTransfer
sender_half (remote name n sha256 sender receiver) = (sender, remote name n sha256 false receiver)
sender_half other = (false, other)
