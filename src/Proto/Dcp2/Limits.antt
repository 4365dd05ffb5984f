-- ===== src/Proto/Dcp2/Limits.antt =====
-- The bytes of packets that are cut off or too long, in `rbc_dcp2_packet_from_bytes` of
-- src/rbc/proto/dcp2/packet.c.
use rubidium_c.Prelude.{
  ℕ, suc, ◌+◌, ◌-◌, ◌%◌, ◌^◌, ◌≤◌, ◌<◌, ◌≡◌, refl, List, [], ◌∷◌, ◌++◌, length, some, none, take,
  Option, arith, ◌==◌, if◌then◌else◌, lt→ltb, zero,
}
use rubidium_c.Proto.Dcp2.{
  crc_loop, packet_from_bytes, read_body, packet_crc_differs, usize_pred, failed, need_more_data,
}
use rubidium_c.Proto.Dcp2.Frame.{Frame, address_byte, command_byte, header_checksum, encode}
use rubidium_c.Proto.Dcp2.Encode.{header_crc-sum}
use rubidium_c.Proto.Dcp2.Decode.{==-refl, not_less, packet_size-eq}

crc_loop-short :
    (n : ℕ) (bytes : List ℕ) (size : ℕ) → length bytes < size → crc_loop n bytes size ≡ none
unfolding crc_loop
crc_loop-short n [] zero short = absurd (omega arith)
crc_loop-short n [] (suc size) short = refl
crc_loop-short n (b ∷ bytes) zero short = absurd (omega arith)
crc_loop-short n (b ∷ bytes) (suc size) short =
    crc_loop-short ((n + b) % 256) bytes size (omega arith)

crc_overruns :
    (calloc : ℕ → Option (List ℕ)) (bytes : List ℕ)
    → length bytes < 2 ^ 64 - 1
    → packet_crc_differs calloc bytes 251 0 ≡ none
unfolding packet_crc_differs
crc_overruns calloc bytes memory = rw (crc_loop-short 0 bytes (usize_pred 0) memory) refl

wrapped_size : (len : ℕ) → len ≡ 251 → (4 + len + (if len == 0 then 0 else 1)) % 256 ≡ 0
wrapped_size len long = rw long refl

body_overruns :
    (calloc : ℕ → Option (List ℕ)) (bytes : List ℕ) (size d0 d1 len : ℕ)
    → len ≡ 251
    → length bytes < 2 ^ 64 - 1
    → read_body calloc bytes size d0 d1 len ≡ none
unfolding read_body
body_overruns calloc bytes size d0 d1 len long memory =
    rw
      (wrapped_size len long, not_less size 0 (omega arith), long, crc_overruns calloc bytes memory)
      refl

-- For a frame whose contents are 250 bytes at most: from fewer bytes than its format has, however
-- few, nothing is read and more data is asked for.
pub from_bytes_waits :
    (calloc : ℕ → Option (List ℕ)) (f : Frame) (n : ℕ)
    → length f.contents ≤ 250
    → n < length (encode f)
    → packet_from_bytes calloc (take n (encode f)) n ≡ some (failed need_more_data)
unfolding packet_from_bytes read_body
from_bytes_waits calloc f zero short part = refl
from_bytes_waits calloc f (suc zero) short part = refl
from_bytes_waits calloc f (suc (suc zero)) short part = refl
from_bytes_waits calloc f (suc (suc (suc zero))) short part = refl
from_bytes_waits calloc f (suc (suc (suc (suc n)))) short part =
    rw
      (
        not_less (suc (suc (suc (suc n)))) 4 (omega arith),
        header_crc-sum (address_byte f) (command_byte f) (length f.contents),
        ==-refl (header_checksum f),
        packet_size-eq f short,
        lt→ltb (suc (suc (suc (suc n)))) (length (encode f)) part,
      )
      refl

-- The bytes of a frame with 251 bytes of contents, which the format allows and
-- `rbc_dcp2_packet_to_bytes` writes, are not read back: whatever follows them in less than 2^64 - 1
-- bytes of memory, the size of the packet wraps to 0 and the reader leaves the bounds.
pub from_bytes_overruns :
    (calloc : ℕ → Option (List ℕ)) (f : Frame) (tail : List ℕ)
    → length f.contents ≡ 251
    → length (encode f ++ tail) < 2 ^ 64 - 1
    → packet_from_bytes calloc (encode f ++ tail) (length (encode f ++ tail)) ≡ none
unfolding packet_from_bytes
from_bytes_overruns calloc f tail long memory =
    rw
      (
        not_less (length (encode f ++ tail)) 4 (omega arith),
        header_crc-sum (address_byte f) (command_byte f) (length f.contents),
        ==-refl (header_checksum f),
      )
      (body_overruns calloc (encode f ++ tail) (length (encode f ++ tail)) (address_byte f)
        (command_byte f) (length f.contents) long memory)
