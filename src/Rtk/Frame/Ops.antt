-- ===== src/Rtk/Frame/Ops.antt =====
-- rtcm_parser.cpp and validated_frame.cpp. A byte is a number below 256; shifts and masks are products,
-- quotients and remainders, and the xor is the native one.
use Prim.Native.Nat.{bit_xor}
use dyx_3wd.Base.{
  ℕ, zero, suc, ◌+◌, ◌-◌, ◌*◌, ◌/◌, ◌%◌, Bool, true, false, not, ◌||◌, List, [], ◌∷◌, ◌++◌, Option,
  none, some, ◌==◌, ltb, u64, if◌then◌else◌, length, take, drop,
}

abbrev pub preamble : ℕ
preamble = 211

-- One of the eight steps that make an entry of the table.
abbrev pub crc_bit : ℕ → ℕ
crc_bit crc = (if crc / 8388608 % 2 == 1 then bit_xor (crc * 2) 25578747 else crc * 2) % 16777216

abbrev pub crc_bits : ℕ → ℕ → ℕ
crc_bits zero crc = crc
crc_bits (suc k) crc = crc_bits k (crc_bit crc)

-- The entry `i` of the table.
abbrev pub crc_entry : ℕ → ℕ
crc_entry i = crc_bits 8 (i * 65536)

unfoldable pub crc_from : ℕ → List ℕ → ℕ
crc_from crc [] = crc
crc_from crc (b ∷ bs) =
    crc_from (bit_xor (crc * 256) (crc_entry (bit_xor (crc / 65536 % 256) b)) % 16777216) bs

unfoldable pub crc24q : List ℕ → ℕ
crc24q bytes = crc_from 0 bytes

-- Three bytes, the highest first.
abbrev pub big_endian : List ℕ → ℕ
big_endian (a ∷ b ∷ c ∷ _) = a * 65536 + b * 256 + c
big_endian _ = 0

pub record RtcmParser : Type 0 where
  pub max_buffer : ℕ
  pub buf : List ℕ
  pub frames : ℕ
  pub crc_failures : ℕ
  pub invalid_headers : ℕ
  pub resync_bytes : ℕ

-- What one turn of the loop of `feed` finds at the front of what is left: it waits for more bytes,
-- skips a byte that is no preamble, skips a preamble with a wrong CRC, or takes a frame. A frame with
-- reserved header bits is counted.
pub data Look : Type 0 where
  waits skips : Look
  fails : Bool → Look
  takes : ℕ → Bool → Look

-- `bytes[1] & 0xFC` is not 0.
abbrev pub reserved_bits : ℕ → Bool
reserved_bits b = not (b / 4 % 64 == 0)

abbrev pub check : List ℕ → ℕ → Bool → Look
check bytes payload reserved =
    if ltb (length bytes) (payload + 3)
    then waits
    else if crc24q (take payload bytes) == big_endian (drop payload bytes)
    then takes (payload + 3) reserved
    else fails reserved

abbrev pub look_header : List ℕ → List ℕ → Look
look_header bytes (high ∷ low ∷ _) =
    check bytes (3 + (high * 256 + low) % 1024) (reserved_bits high)
look_header bytes _ = waits

unfoldable pub look : List ℕ → Look
look [] = waits
look (b ∷ bs) = if b == preamble then look_header (b ∷ bs) bs else skips

abbrev pub count_if : Bool → ℕ → ℕ
count_if b n = if b then u64 (n + 1) else n

-- The parser after the turn. The buffer is what is left of it.
unfoldable pub consume : RtcmParser → Look → RtcmParser
consume p waits = p
consume p skips = record p { buf = drop 1 p.buf; resync_bytes = u64 (p.resync_bytes + 1) }
consume p (fails reserved) = record p {
  buf = drop 1 p.buf;
  crc_failures = u64 (p.crc_failures + 1);
  resync_bytes = u64 (p.resync_bytes + 1);
  invalid_headers = count_if reserved p.invalid_headers;
}
consume p (takes n reserved) = record p {
  buf = drop n p.buf;
  frames = u64 (p.frames + 1);
  invalid_headers = count_if reserved p.invalid_headers;
}

abbrev pub waiting : Look → Bool
waiting waits = true
waiting _ = false

abbrev pub cut : Look → List ℕ → List (List ℕ)
cut (takes n _) bytes = take n bytes ∷ []
cut _ bytes = []

-- The loop of `feed`: every turn but the last consumes a byte, so the length of the buffer is fuel
-- enough.
unfoldable pub scan : ℕ → RtcmParser → RtcmParser × List (List ℕ)
scan zero p = (p, [])
scan (suc fuel) p =
    let l = look p.buf in
    elim (waiting l) [
      | true ↦ (p, [])
      | false ↦ let (p', fs) = scan fuel (consume p l) in (p', cut l p.buf ++ fs)
    ]

-- The end of `feed`: the oldest bytes leave a buffer that is too long.
unfoldable pub trim_buffer : RtcmParser → RtcmParser
trim_buffer p =
    let over = length p.buf - p.max_buffer in
    if ltb p.max_buffer (length p.buf)
    then record p { buf = drop over p.buf; resync_bytes = u64 (p.resync_bytes + over) }
    else p

abbrev pub appended : RtcmParser → List ℕ → RtcmParser
appended p bytes = record p { buf = p.buf ++ bytes }

unfoldable pub feed : RtcmParser → List ℕ → RtcmParser × List (List ℕ)
unfolding scan
feed p bytes =
    let (p', fs) = scan (length (p.buf ++ bytes)) (appended p bytes) in (trim_buffer p', fs)

-- `ValidatedFrame::parse`, with the first three bytes read.
abbrev pub parse_header : List ℕ → Option (List ℕ)
parse_header (first ∷ high ∷ low ∷ rest) =
    let bytes = first ∷ high ∷ low ∷ rest in
    let at = length bytes - 3 in
    if not (first == preamble)
    then none
    else if not (length bytes == high % 4 * 256 + low + 6)
    then none
    else if crc24q (take at bytes) == big_endian (drop at bytes)
    then some bytes
    else none
parse_header _ = none

unfoldable pub parse : List ℕ → Option (List ℕ)
parse bytes = if ltb (length bytes) 6 || ltb 1029 (length bytes) then none else parse_header bytes

-- `rtcm_message_type`.
abbrev pub type_of : List ℕ → ℕ
type_of (first ∷ _ ∷ _ ∷ a ∷ b ∷ _) = if first == preamble then a * 16 + b / 16 else 0
type_of _ = 0

unfoldable pub rtcm_message_type : List ℕ → ℕ
rtcm_message_type frame = if ltb (length frame) 8 then 0 else type_of frame
