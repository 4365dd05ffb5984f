-- ===== src/Proto/Dcp2.antt =====
-- src/rbc/proto/dcp2/packet.h and packet.c: packets, and their bytes on the wire.
-- The heap is not code of the repository: what `calloc` and `malloc` return is a parameter, a block
-- of bytes or `none` for a null pointer. A function returns `none` where it reads or writes out of
-- bounds or through a null pointer. The words of the target are those of a 64-bit machine.
pub mod Frame
pub mod Encode
pub mod Decode
pub mod Limits
pub mod Damage
pub mod Print
mod Tests
use rubidium_c.Prelude.{
  ℕ, zero, suc, ◌+◌, ◌-◌, ◌*◌, ◌/◌, ◌%◌, ◌^◌, Bool, true, false, not, ltb, leb, ◌==◌, if◌then◌else◌,
  Option, none, some, List, [], ◌∷◌, drop, get_elem?, replicate, ◌>>=◌, store, memcpy,
}

pub data Dcp2Error : Type 0 where
  ok invalid_header_crc invalid_packet_crc need_more_data : Dcp2Error

-- The union: `data`, or `ptr` where the length is above `sizeof(u8*)`.
pub data Storage : Type 0 where
  inline : List ℕ → Storage
  heap : Option (List ℕ) → Storage

pub record Packet : Type 0 where
  pub dst : ℕ
  pub src : ℕ
  pub cmd : ℕ
  pub ack : ℕ
  pub req : ℕ
  pub len : ℕ
  pub storage : Storage

-- `end` is an index of the bytes read.
pub record Dcp2Result : Type 0 where
  pub packet : Packet
  pub end : ℕ
  pub error : Dcp2Error

abbrev pub pointer_size : ℕ
pointer_size = 8

abbrev pub zero_packet : Packet
zero_packet = record {
  dst = 0;
  src = 0;
  cmd = 0;
  ack = 0;
  req = 0;
  len = 0;
  storage = inline (replicate pointer_size 0);
}

abbrev pub failed : Dcp2Error → Dcp2Result
failed e = record { packet = zero_packet; end = 0; error = e }

-- `none` is a null pointer.
pub get_data : Packet → Option (List ℕ)
get_data self = elim self.storage [ inline bytes ↦ some bytes | heap block ↦ block ]

abbrev pub with_data : Packet → List ℕ → Packet
with_data self bytes = record self {
  storage = elim self.storage [ inline _ ↦ inline bytes | heap _ ↦ heap (some bytes) ];
}

pub header_crc : ℕ → ℕ → ℕ → ℕ
header_crc d0 d1 d2 = (137 + d0 + d1 + d2) % 256

-- The loop, on what is left of the data.
pub crc_loop : ℕ → List ℕ → ℕ → Option ℕ
crc_loop crc input zero = some crc
crc_loop crc [] (suc size) = none
crc_loop crc (b ∷ input) (suc size) = crc_loop ((crc + b) % 256) input size

abbrev pub packet_crc : List ℕ → ℕ → Option ℕ
packet_crc input size = crc_loop 0 input size

-- The conversion of `packet_size - 1`, an int, to usize.
abbrev pub usize_pred : ℕ → ℕ
usize_pred n = (n + (2 ^ 64 - 1)) % 2 ^ 64

module _ (calloc : ℕ → Option (List ℕ)) where
  pub packet_new : ℕ → Packet
  packet_new size = record zero_packet {
    len = size;
    storage =
        if leb size pointer_size then inline (replicate pointer_size 0) else heap (calloc size);
  }

  -- The packet behind both checks.
  pub read_packet : List ℕ → ℕ → ℕ → ℕ → ℕ → Option Dcp2Result
  read_packet input d0 d1 len packet_size =
      let packet = record (packet_new len) {
        dst = d0 % 16;
        src = d0 / 16 % 16;
        cmd = d1 % 32;
        ack = d1 / 32 % 4;
        req = d1 / 128 % 2;
        len = len;
      } in
      get_data packet >>= λ room. memcpy room 0 (drop 4 input) len >>= λ bytes.
      some (record { packet = with_data packet bytes; end = packet_size; error = ok })

  -- if (len != 0 && packet_crc(data, packet_size - 1) != data[packet_size - 1])
  pub packet_crc_differs : List ℕ → ℕ → ℕ → Option Bool
  packet_crc_differs input len packet_size =
      if len == 0
      then some false
      else (packet_crc input (usize_pred packet_size) >>= λ crc.
          get_elem? input (usize_pred packet_size) >>= λ last. some (not (crc == last)))

  -- Behind the check of the header.
  pub read_body : List ℕ → ℕ → ℕ → ℕ → ℕ → Option Dcp2Result
  read_body input size d0 d1 len =
      let packet_size = (4 + len + (if len == 0 then 0 else 1)) % 256 in
      if ltb size packet_size
      then some (failed need_more_data)
      else (packet_crc_differs input len packet_size >>= λ differs.
          if differs
          then some (failed invalid_packet_crc)
          else read_packet input d0 d1 len packet_size)

  pub packet_from_bytes : List ℕ → ℕ → Option Dcp2Result
  packet_from_bytes input size =
      if ltb size 4
      then some (failed need_more_data)
      else (get_elem? input 0 >>= λ d0. get_elem? input 1 >>= λ d1. get_elem? input 2 >>= λ d2.
          get_elem? input 3 >>= λ d3.
          if d3 == header_crc d0 d1 d2
          then read_body input size d0 d1 d2
          else some (failed invalid_header_crc))

-- free(self->ptr), where there is one.
pub packet_delete : Packet → Option (Option (List ℕ))
packet_delete self =
    if ltb pointer_size self.len
    then elim self.storage [ inline bytes ↦ none | heap block ↦ some block ]
    else none

-- data[0] to data[3].
pub write_header : Packet → List ℕ → Option (List ℕ)
write_header self block =
    let d0 = (self.dst + self.src * 16) % 256 in
    let d1 = (self.cmd + self.ack * 32 + self.req * 128) % 256 in
    store block 0 d0 >>= λ bytes0. store bytes0 1 d1 >>= λ bytes1.
    store bytes1 2 self.len >>= λ bytes2. store bytes2 3 (header_crc d0 d1 self.len)

-- data[size - 1] = packet_crc(data, size - 1);
pub write_packet_crc : List ℕ → ℕ → Option (List ℕ)
write_packet_crc bytes size = packet_crc bytes (size - 1) >>= λ crc. store bytes (size - 1) crc

module _ (malloc : ℕ → Option (List ℕ)) where
  -- `rbc_array_u8_new` and what follows; the array's bytes.
  pub packet_to_bytes : Packet → Option (List ℕ)
  packet_to_bytes self =
      let need_packet_crc = ltb 0 self.len in
      let size = 4 + self.len + (if need_packet_crc then 1 else 0) in
      malloc size >>= λ block. write_header self block >>= λ headed. get_data self >>= λ contents.
      memcpy headed 4 contents self.len >>= λ filled.
      if need_packet_crc then write_packet_crc filled size else some filled
