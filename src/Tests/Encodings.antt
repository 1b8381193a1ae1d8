-- ===== src/Tests/Encodings.antt =====
-- A file format and encodings of the stored values, which bring back what they take.
use Prim.Native.Char.{code}
use tpi_bmcd.Base.{
  ℕ, zero, suc, ◌+◌, ◌*◌, ◌≡◌, ◌∙◌, ap, sym, subst, refl, ◌==◌, Bool, true, false, String, Option,
  none, some, List, [], ◌∷◌, ◌++◌, append-nil, map, replicate, Result, ok, err, if◌then◌else◌,
}
use tpi_bmcd.Base.Assoc.{nat_key, text_key}
use tpi_bmcd.Base.Results.{◌>>=◌, IfOk, IfOk-bind}
use tpi_bmcd.Hal.{node1, node2, node3, node4}
use tpi_bmcd.App.State.{NodeInfo, no_info, UsbConfig, usb_a, bmc_host, flashing, node}
use tpi_bmcd.App.Store.Decoded.{RoundTrips, AllRoundTrip}
use tpi_bmcd.Persistency.{Bytes, PersistencyHeader, Format, Codec, binary_magic}
use tpi_bmcd.App.Store.{Codecs}
use tpi_bmcd.App.Store.Restart.{FitDefaults}

-- Headers as three numbers and the room of the others.
abbrev pub write_header : PersistencyHeader → Bytes
write_header h = h.version ∷ h.data_size ∷ h.data_offset ∷ replicate 14 0

abbrev pub read_header : Bytes → Result String PersistencyHeader
read_header (v ∷ n ∷ o ∷ rest) =
    ok (record { version = v; magic = binary_magic; data_size = n; data_offset = o })
read_header _ = err "io error: unexpected end of file"

-- Maps with a 0 in front of each entry, and one more than every number of it.
abbrev pub write_map : List (ℕ × Bytes) → Bytes
write_map [] = []
write_map ((k, v) ∷ m) = 0 ∷ suc k ∷ (map suc v ++ write_map m)

abbrev entry_of : Bytes → List (ℕ × Bytes) → List (ℕ × Bytes)
entry_of [] m = m
entry_of (k ∷ v) m = (k, v) ∷ m

-- What stands before the first 0, and the entries behind it.
abbrev pub read_entries : Bytes → Bytes × List (ℕ × Bytes)
read_entries [] = ([], [])
read_entries (zero ∷ bs) = let (open_entry, m) = read_entries bs in ([], entry_of open_entry m)
read_entries (suc b ∷ bs) = let (open_entry, m) = read_entries bs in (b ∷ open_entry, m)

read_entry :
    (v bs : Bytes)
    → read_entries (map suc v ++ bs) ≡ (v ++ (read_entries bs).0, (read_entries bs).1)
read_entry [] bs = refl
read_entry (b ∷ v) bs = ap (λ (x : Bytes × List (ℕ × Bytes)). (b ∷ x.0, x.1)) (read_entry v bs)

pub read_back : (m : List (ℕ × Bytes)) → read_entries (write_map m) ≡ ([], m)
read_back [] = refl
read_back ((k, v) ∷ m) =
    let same =
      read_entry v (write_map m)
      ∙ ap (λ (x : Bytes × List (ℕ × Bytes)). (v ++ x.0, x.1)) (read_back m) in
    ap (λ (x : Bytes × List (ℕ × Bytes)). ([], (k, x.0) ∷ x.1)) (same ∙ rw (append-nil v) refl)

abbrev pub digest : String → ℕ
digest String.[] = 0
digest (String.◌∷◌ c s) = code c + 3 * digest s

abbrev pub format : Format
format = record {
  encode_header = write_header;
  decode_header = read_header;
  encode_map = write_map;
  decode_map = λ bytes. ok (read_entries bytes).1;
  hash = digest;
}

abbrev number : Codec ℕ
number = record {
  encode = λ n. ok (n ∷ []);
  decode = λ bytes. elim bytes [ n ∷ _ ↦ ok n | [] ↦ err "io error: unexpected end of file" ];
}

abbrev flag : Codec Bool
flag = record {
  encode = λ b. ok ((if b then 1 else 0) ∷ []);
  decode =
      λ bytes. elim bytes [ n ∷ _ ↦ ok (n == 1) | [] ↦ err "io error: unexpected end of file" ];
}

-- Of the USB configurations only the default is stored, of the cooling devices none, and of the infos
-- only the times.
abbrev usb_bytes : UsbConfig → Result String Bytes
usb_bytes (usb_a node1) = ok []
usb_bytes _ = err "no room"

abbrev cooling_bytes : List (ℕ × ℕ) → Result String Bytes
cooling_bytes [] = ok []
cooling_bytes _ = err "no room"

abbrev time_byte : Option String → Option String → Option ℕ → Option ℕ → Result String ℕ
time_byte none none none none = ok 0
time_byte none none none (some t) = ok (suc t)
time_byte _ _ _ _ = err "no room"

abbrev infos_bytes : List NodeInfo → Result String Bytes
infos_bytes [] = ok []
infos_bytes (i ∷ is) = time_byte i.name i.module_name i.uart_baud i.power_on_time >>= λ n.
    infos_bytes is >>= λ ns. ok (n ∷ ns)

abbrev info_of : ℕ → NodeInfo
info_of zero = no_info
info_of (suc t) = record no_info { power_on_time = some t }

abbrev pub codecs : Codecs
codecs = record {
  activated_nodes = number;
  usb_config = record { encode = usb_bytes; decode = λ _. ok (usb_a node1) };
  node_infos = record { encode = infos_bytes; decode = λ bytes. ok (map info_of bytes) };
  node1_usb = flag;
  cooling = record { encode = cooling_bytes; decode = λ _. ok [] };
}

decoded :
    {T : Type 0} (c : Codec T)
    → ((v : T) → IfOk (λ (bytes : Bytes). c.decode bytes ≡ ok v) (c.encode v))
    → RoundTrips c
decoded c each v bytes e = subst (IfOk (λ (b : Bytes). c.decode b ≡ ok v)) e (each v)

usb_back : (v : UsbConfig) → IfOk (λ (b : Bytes). codecs.usb_config.decode b ≡ ok v) (usb_bytes v)
usb_back (usb_a node1) = refl
usb_back (usb_a node2) = tt
usb_back (usb_a node3) = tt
usb_back (usb_a node4) = tt
usb_back (bmc_host n) = tt
usb_back (flashing n r) = tt
usb_back (node n r) = tt

time_back :
    (name module_name : Option String) (baud time : Option ℕ)
    → IfOk
        (λ (n : ℕ). info_of n ≡ record {
          name = name;
          module_name = module_name;
          power_on_time = time;
          uart_baud = baud;
        })
        (time_byte name module_name baud time)
time_back none none none none = refl
time_back none none none (some t) = refl
time_back none none (some b) time = tt
time_back none (some m) baud time = tt
time_back (some n) module_name baud time = tt

infos_back : (v : List NodeInfo) → IfOk (λ (b : Bytes). map info_of b ≡ v) (infos_bytes v)
infos_back [] = refl
infos_back (i ∷ is) =
    let P = λ (b : Bytes). map info_of b ≡ i ∷ is in
    let byte = time_byte i.name i.module_name i.uart_baud i.power_on_time in
    IfOk-bind P byte (λ n. infos_bytes is >>= λ ns. ok (n ∷ ns))
      (λ n e.
        IfOk-bind P (infos_bytes is) (λ ns. ok (n ∷ ns))
          (λ ns e'.
            let first =
              subst (IfOk (λ (m : ℕ). info_of m ≡ i)) e
                (time_back i.name i.module_name i.uart_baud i.power_on_time) in
            let others = subst (IfOk (λ (b : Bytes). map info_of b ≡ is)) e' (infos_back is) in
            rw (first, others) refl))

flag_back :
    (v : Bool) → IfOk (λ (b : Bytes). codecs.node1_usb.decode b ≡ ok v) (codecs.node1_usb.encode v)
flag_back true = refl
flag_back false = refl

cooling_back :
    (v : List (ℕ × ℕ)) → IfOk (λ (b : Bytes). codecs.cooling.decode b ≡ ok v) (cooling_bytes v)
cooling_back [] = refl
cooling_back (x ∷ v) = tt

pub all_back : AllRoundTrip codecs
all_back = (
  decoded codecs.activated_nodes (λ v. refl),
  decoded codecs.usb_config usb_back,
  λ v bytes e. ap ok (subst (IfOk (λ (b : Bytes). map info_of b ≡ v)) e (infos_back v)),
  decoded codecs.node1_usb flag_back,
  decoded codecs.cooling cooling_back,
)

abbrev pub defaults : FitDefaults codecs
defaults = (
  (0 ∷ [], refl, refl),
  ([], refl, refl),
  (0 ∷ 0 ∷ 0 ∷ 0 ∷ [], refl, refl),
  (0 ∷ [], refl, refl),
  ([], refl, refl),
)

pub reads :
    (h : PersistencyHeader) (rest : Bytes)
    → h.magic ≡ binary_magic
    → read_header (write_header h ++ rest) ≡ ok h
reads h rest e = ap (λ (m : Bytes). ok (record h { magic = m })) (sym e)
