-- ===== src/Protocol/Messages/Listing.antt =====
-- airusb/protocol/Messages: the device list.
use airusb_hub.Base.{
  ℕ, false, zero, suc, ◌≡◌, ◌≤◌, ◌&&◌, Option, none, some, List, refl, [], ◌∷◌, ◌++◌, sym, arith,
  ltb, leb, if◌then◌else◌, length, take, drop, map, IsU16, IsByte, All, append_assoc, append-nil,
  take_of_length_le, take-append, drop-append, length-append,
}
use airusb_hub.Protocol.Codec.{
  rd_u8, rd_u16, rd_u32, wr_u8, wr_u16, wr_u32, grow, copy_to, u16_of-bytes, u32_of-bytes,
  cells_lem,
}

pub record DeviceRecord : Type 0 where
  pub uid : List ℕ
  pub vendor_id : ℕ
  pub product_id : ℕ
  pub speed : ℕ
  pub flags : ℕ
  pub name : List ℕ

abbrev pub max_listed_devices : ℕ
max_listed_devices = 64

abbrev pub device_record_fixed : ℕ
device_record_fixed = 24

abbrev pub max_device_name_len : ℕ
max_device_name_len = 128

-- A name that is too long is cut.
abbrev pub name_len : DeviceRecord → ℕ
name_len d = if ltb max_device_name_len (length d.name) then max_device_name_len else length d.name

-- The record and, on its end, the name's bytes.
unfoldable pub record_bytes : DeviceRecord → List ℕ
record_bytes d =
    let r = copy_to (grow device_record_fixed) 0 d.uid in
    let r = wr_u16 r 16 d.vendor_id in
    let r = wr_u16 r 18 d.product_id in
    let r = wr_u8 r 20 d.speed in
    let r = wr_u8 r 21 d.flags in wr_u16 r 22 (name_len d) ++ take (name_len d) d.name

unfoldable pub records_bytes : List DeviceRecord → List ℕ
unfolding record_bytes
records_bytes [] = []
records_bytes (d ∷ ds) = record_bytes d ++ records_bytes ds

unfoldable pub encode_device_list : List DeviceRecord → List ℕ → List ℕ
unfolding records_bytes
encode_device_list devices out =
    let n =
      if ltb max_listed_devices (length devices) then max_listed_devices else length devices in
    (out ++ wr_u32 (wr_u32 (grow 8) 0 n) 4 0) ++ records_bytes (take n devices)

-- Printable ASCII, or a full stop.
abbrev pub shown : ℕ → ℕ
shown c = if leb 0x20 c && ltb c 0x7F then c else 0x2E

read_record : List ℕ → ℕ → List ℕ → DeviceRecord
read_record r len name = record {
  uid = take 16 r;
  vendor_id = rd_u16 r 16;
  product_id = rd_u16 r 18;
  speed = rd_u8 r 20;
  flags = rd_u8 r 21;
  name = map shown (take len name);
}

-- One round of the loop: a record at the front, with the bytes behind it.
unfoldable pub decode_record : List ℕ → Option (DeviceRecord × List ℕ)
unfolding read_record
decode_record r =
    if ltb (length r) device_record_fixed
    then none
    else let len = rd_u16 r 22 in
      if ltb max_device_name_len len
      then none
      else let rest = drop device_record_fixed r in
        if ltb (length rest) len
        then none
        else if ltb 7 (rd_u8 r 20)
        then none
        else some (read_record r len rest, drop len rest)

-- The decoded records behind the first, if all of them decode.
with_record :
    DeviceRecord → Option (List DeviceRecord × List ℕ) → Option (List DeviceRecord × List ℕ)
with_record d none = none
with_record d (some (ds, rest)) = some (d ∷ ds, rest)

and_more :
    (List ℕ → Option (List DeviceRecord × List ℕ))
    → Option (DeviceRecord × List ℕ)
    → Option (List DeviceRecord × List ℕ)
unfolding with_record
and_more again none = none
and_more again (some (d, rest)) = with_record d (again rest)

unfoldable pub decode_records : ℕ → List ℕ → Option (List DeviceRecord × List ℕ)
unfolding decode_record and_more
decode_records zero r = some ([], r)
decode_records (suc n) r = and_more (decode_records n) (decode_record r)

-- Bytes behind the last record refuse the list.
with_nothing_behind : Option (List DeviceRecord × List ℕ) → Option (List DeviceRecord)
with_nothing_behind none = none
with_nothing_behind (some (ds, [])) = some ds
with_nothing_behind (some (ds, b ∷ rest)) = none

unfoldable pub decode_device_list : List ℕ → Option (List DeviceRecord)
unfolding decode_records with_nothing_behind
decode_device_list body =
    if ltb (length body) 8
    then none
    else let n = rd_u32 body 0 in
      if ltb max_listed_devices n
      then none
      else with_nothing_behind (decode_records n (drop 8 body))

-- What both sides can carry: ranges, the speeds, and a short printable name.
abbrev IsListed : DeviceRecord → Type 0
IsListed d =
    (length d.uid ≡ 16)
    × IsU16 d.vendor_id
    × IsU16 d.product_id
    × (d.speed ≤ 7)
    × IsByte d.flags
    × (length d.name ≤ max_device_name_len)
    × (map shown d.name ≡ d.name)

decode_record-record_bytes :
    (d : DeviceRecord) (rest : List ℕ)
    → IsListed d
    → decode_record (record_bytes d ++ rest) ≡ some (d, rest)
unfolding decode_record record_bytes read_record
decode_record-record_bytes d rest (uid, vendor, product, speed, flags, short, printable) =
    let whole : name_len d ≡ length d.name = ground arith in
    let taken : take (length d.name) d.name ≡ d.name =
      take_of_length_le (length d.name) d.name (omega arith) in
    let fits : IsU16 (length d.name) = omega arith in
    rw
      (
        whole,
        taken,
        cells_lem 16 d.uid uid,
        u16_of-bytes d.vendor_id vendor,
        u16_of-bytes d.product_id product,
        u16_of-bytes (length d.name) fits,
        take-append d.name rest,
        drop-append d.name rest,
        printable,
      )
      (ground (arith, length-append d.name rest))

decode_records-records_bytes :
    (ds : List DeviceRecord) (rest : List ℕ)
    → All IsListed ds
    → decode_records (length ds) (records_bytes ds ++ rest) ≡ some (ds, rest)
unfolding decode_records records_bytes and_more
decode_records-records_bytes [] rest nothing = refl
decode_records-records_bytes (d ∷ ds) rest (listed, others) =
    rw
      (
        append_assoc (record_bytes d) (records_bytes ds) rest,
        decode_record-record_bytes d (records_bytes ds ++ rest) listed,
        decode_records-records_bytes ds rest others,
      )
      refl

long_enough : (n : ℕ) → ltb (suc (suc (suc (suc (suc (suc (suc (suc n)))))))) 8 ≡ false
long_enough n = ground arith

-- At most 64 records that both sides can carry decode, once encoded as a device list, to
-- themselves.
pub decode_device_list-encode_device_list :
    (ds : List DeviceRecord)
    → length ds ≤ max_listed_devices
    → All IsListed ds
    → decode_device_list (encode_device_list ds []) ≡ some ds
unfolding decode_device_list encode_device_list with_nothing_behind
decode_device_list-encode_device_list ds few listed =
    let count : (if ltb max_listed_devices (length ds) then max_listed_devices else length ds)
        ≡ length ds =
      ground arith in
    let all : take (length ds) ds ≡ ds = take_of_length_le (length ds) ds (omega arith) in
    let read : decode_records (length ds) (records_bytes ds) ≡ some (ds, []) =
      rw (sym (append-nil (records_bytes ds))) (decode_records-records_bytes ds [] listed) in
    let within : ltb max_listed_devices (length ds) ≡ false = ground arith in
    rw
      (
        count,
        all,
        u32_of-bytes (length ds) (omega arith),
        long_enough (length (records_bytes ds)),
        within,
        read,
      )
      refl
