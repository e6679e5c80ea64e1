-- ===== src/Panda/Codec.antt =====
-- Packing CAN frames into USB packets of 64 bytes and unpacking them. A buffer is the list of its
-- bytes; a null pointer is `none`. Where fields of a word share no bit, `|` is written `+`.
pub mod Packets
pub mod Frames
pub mod RoundTrip
pub mod Received
mod Tests
use supercombo_k.Base.{
  ℕ, zero, suc, ◌+◌, ◌-◌, ◌*◌, ◌/◌, ◌%◌, ◌≤◌, ◌≡◌, Bool, true, false, not, ◌&&◌, ◌||◌, List, [],
  ◌∷◌, ◌++◌, Option, none, some, ltb, leb, ◌==◌, if◌then◌else◌, length, get_or, take, drop,
  replicate,
}
use supercombo_k.Base.Int.{ℤ, pos, negsuc}

abbrev pub panda_can_max_address : ℕ
panda_can_max_address = 0x1fffffff

abbrev pub panda_can_max_tx_bus : ℕ
panda_can_max_tx_bus = 3

abbrev pub panda_can_max_data_len : ℕ
panda_can_max_data_len = 64

abbrev pub usb_packet_max_size : ℕ
usb_packet_max_size = 64

abbrev pub can_packet_head_size : ℕ
can_packet_head_size = 5

-- `payload` is the array of 64 bytes, of which `data_len` are meant.
pub record PandaCanFrame : Type 0 where
  pub address : ℕ
  pub bus : ℕ
  pub data_len : ℕ
  pub payload : List ℕ
  pub returned : Bool
  pub rejected : Bool

abbrev pub dlc_to_len : List ℕ
dlc_to_len = 0 ∷ 1 ∷ 2 ∷ 3 ∷ 4 ∷ 5 ∷ 6 ∷ 7 ∷ 8 ∷ 12 ∷ 16 ∷ 20 ∷ 24 ∷ 32 ∷ 48 ∷ 64 ∷ []

-- The texts that `set_error` stores.
pub data CodecError : Type 0 where
  null_output address_range bus_range rx_only_flags bad_data_len : CodecError
  null_argument negative_size bad_counter truncated_header truncated_payload : CodecError
  -- The model's own: a loop was given too little fuel.
  out_of_fuel : CodecError

-- The first dlc from `dlc` on whose length is `len`, and 0xff if there is none.
len_to_dlc_from : List ℕ → ℕ → ℕ → ℕ
len_to_dlc_from [] dlc len = 0xff
len_to_dlc_from (l ∷ ls) dlc len = if l == len then dlc else len_to_dlc_from ls (dlc + 1) len

pub len_to_dlc : ℕ → ℕ
unfolding len_to_dlc_from
len_to_dlc len = len_to_dlc_from dlc_to_len 0 len

pub panda_can_is_valid_data_len : ℕ → Bool
unfolding len_to_dlc
panda_can_is_valid_data_len len = not (len_to_dlc len == 0xff)

pub write_le32 : ℕ → List ℕ
write_le32 value =
    value % 256 ∷ value / 256 % 256 ∷ value / 65536 % 256 ∷ value / 16777216 % 256 ∷ []

pub read_le32 : List ℕ → ℕ
read_le32 bytes =
    get_or bytes 0 0
    + get_or bytes 1 0 * 256
    + get_or bytes 2 0 * 65536
    + get_or bytes 3 0 * 16777216

-- Each packet of 64 bytes starts with its own number.
pub append_byte : List ℕ → ℕ → List ℕ
append_byte dest b =
    (if length dest % usb_packet_max_size == 0
      then dest ++ (length dest / usb_packet_max_size % 256) ∷ []
      else dest)
    ++ b ∷ []

pub append_packet_bytes : List ℕ → List ℕ → List ℕ
append_packet_bytes dest [] = dest
append_packet_bytes dest (b ∷ src) = append_packet_bytes (append_byte dest b) src

-- What the guards of the loop find wrong with a frame, in their order.
pub frame_error : PandaCanFrame → Option CodecError
frame_error f =
    if ltb panda_can_max_address f.address
    then some address_range
    else if ltb panda_can_max_tx_bus f.bus
    then some bus_range
    else if f.returned || f.rejected
    then some rx_only_flags
    else if len_to_dlc f.data_len == 0xff
    then some bad_data_len
    else none

pub packet_header : PandaCanFrame → List ℕ
unfolding write_le32
packet_header f =
    let extended : ℕ = if leb 0x800 f.address then 1 else 0 in
    let word_4b = f.address * 8 + extended * 4 in
    (len_to_dlc f.data_len * 16 + f.bus * 2) % 256 ∷ write_le32 word_4b

-- The flag, the error text if any, and the buffer as it is left.
pub record PackResult : Type 0 where
  pub error : Option CodecError
  pub out : List ℕ

pub pack_loop : List PandaCanFrame → List ℕ → PackResult
pack_loop [] out = record { error = none; out = out }
pack_loop (f ∷ fs) out = elim (frame_error f) [
  | some e ↦ record { error = some e; out = out }
  | none ↦
      pack_loop fs (
        append_packet_bytes (append_packet_bytes out (packet_header f)) (take f.data_len f.payload))
]

-- `out` is the vector that the pointer refers to.
pub panda_can_pack_buffer : List PandaCanFrame → Option (List ℕ) → PackResult
unfolding pack_loop
panda_can_pack_buffer frames none = record { error = some null_output; out = [] }
panda_can_pack_buffer frames (some out) = pack_loop frames []

pub record UnpackResult : Type 0 where
  pub error : Option CodecError
  pub recv_buf : List ℕ
  pub frames : List PandaCanFrame

pub record StripResult : Type 0 where
  pub error : Option CodecError
  pub recv_buf : List ℕ

-- The first loop, at offset `i` with the bytes from there on.
pub strip_counters : ℕ → ℕ → List ℕ → List ℕ → StripResult
strip_counters fuel i [] recv = record { error = none; recv_buf = recv }
strip_counters zero i (c ∷ rest) recv = record { error = some out_of_fuel; recv_buf = recv }
strip_counters (suc fuel) i (c ∷ rest) recv =
    let more =
      strip_counters fuel (i + usb_packet_max_size) (drop (usb_packet_max_size - 1) rest)
        (recv ++ take (usb_packet_max_size - 1) rest) in
    if c == i / usb_packet_max_size % 256
    then more
    else record { error = some bad_counter; recv_buf = recv }

-- The frame whose header and data stand at the head of the buffer.
pub read_frame : List ℕ → ℕ → PandaCanFrame
read_frame bytes data_len =
    let header0 = get_or bytes 0 0 in
    let word_4b = read_le32 (drop 1 bytes) in
    let copied = take data_len (drop can_packet_head_size bytes) in
    record {
      bus = header0 / 2 % 8;
      address = word_4b / 8;
      rejected = not (word_4b % 2 == 0);
      returned = not (word_4b / 2 % 2 == 0);
      data_len = data_len;
      payload = copied ++ replicate (panda_can_max_data_len - length copied) 0;
    }

pub record ParseResult : Type 0 where
  pub error : Option CodecError
  pub frames : List PandaCanFrame

-- The second loop, on the bytes from `pos` on, with the frames found so far.
pub parse_frames : ℕ → List ℕ → List PandaCanFrame → ParseResult
parse_frames fuel [] frames = record { error = none; frames = frames }
parse_frames zero (b ∷ bytes) frames = record { error = some out_of_fuel; frames = frames }
parse_frames (suc fuel) (b ∷ bytes) frames =
    let data_len = get_or dlc_to_len (b / 16 % 16) 0 in
    let more =
      parse_frames fuel (drop (can_packet_head_size + data_len) (b ∷ bytes))
        (frames ++ read_frame (b ∷ bytes) data_len ∷ []) in
    if ltb (length (b ∷ bytes)) can_packet_head_size
    then record { error = some truncated_header; frames = frames }
    else if ltb (length (b ∷ bytes)) (can_packet_head_size + data_len)
    then record { error = some truncated_payload; frames = frames }
    else more

after_strip : StripResult → UnpackResult
unfolding parse_frames
after_strip s = elim s.error [
  | some e ↦ record { error = some e; recv_buf = s.recv_buf; frames = [] }
  | none ↦
      let p = parse_frames (length s.recv_buf) s.recv_buf [] in
      record { error = p.error; recv_buf = s.recv_buf; frames = p.frames }
]

-- `size` bytes are read from `bytes`; the vectors that the pointers refer to are cleared first.
pub panda_can_unpack_buffer :
    Option (List ℕ) → ℤ → Option (List ℕ) → Option (List PandaCanFrame) → UnpackResult
unfolding strip_counters after_strip
panda_can_unpack_buffer (some bytes) (pos size) (some recv_buf) (some frames) =
    after_strip (strip_counters size 0 (take size bytes) [])
panda_can_unpack_buffer (some bytes) (negsuc n) (some recv_buf) (some frames) = record {
  error = some negative_size;
  recv_buf = recv_buf;
  frames = frames;
}
panda_can_unpack_buffer (some bytes) size (some recv_buf) none = record {
  error = some null_argument;
  recv_buf = recv_buf;
  frames = [];
}
panda_can_unpack_buffer (some bytes) size none frames = record {
  error = some null_argument;
  recv_buf = [];
  frames = [];
}
panda_can_unpack_buffer none size recv_buf frames = record {
  error = some null_argument;
  recv_buf = [];
  frames = [];
}
