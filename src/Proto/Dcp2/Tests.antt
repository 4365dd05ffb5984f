-- ===== src/Proto/Dcp2/Tests.antt =====
-- The theorems on packets at concrete inputs.
use rubidium_c.Prelude.{
  ℕ, ◌≡◌, refl, sym, List, [], ◌∷◌, ◌++◌, length, some, none, replicate, length-replicate, Option,
  arith,
}
use rubidium_c.Proto.Dcp2.{
  Packet, inline, ok, failed, need_more_data, invalid_packet_crc, packet_from_bytes,
  packet_to_bytes, get_data, packet_new, header_crc,
}
use rubidium_c.Proto.Dcp2.Frame.{Frame, InBits, Holds, IsMalloc, IsCalloc, encode}
use rubidium_c.Proto.Dcp2.Encode.{to_bytes-encode}
use rubidium_c.Proto.Dcp2.Decode.{some_injective, from_bytes-encode}
use rubidium_c.Proto.Dcp2.Limits.{from_bytes_waits, from_bytes_overruns}
use rubidium_c.Proto.Dcp2.Damage.{from_bytes_detects}

-- Allocators that never fail.
abbrev dirty : ℕ → Option (List ℕ)
dirty n = some (replicate n 170)

abbrev clean : ℕ → Option (List ℕ)
clean n = some (replicate n 0)

dirty-IsMalloc : IsMalloc dirty
dirty-IsMalloc n block e = rw (sym (some_injective e)) (length-replicate {A = ℕ} n 170)

clean-IsCalloc : IsCalloc clean
clean-IsCalloc n block e = sym (some_injective e)

-- An answer of the sensor to the computer.
abbrev answer : Frame
answer = record { dst = 0; src = 1; cmd = 5; ack = 0; req = 1; contents = 200 ∷ 100 ∷ [] }

abbrev answer_packet : Packet
answer_packet = record {
  dst = 0;
  src = 1;
  cmd = 5;
  ack = 0;
  req = 1;
  len = 2;
  storage = inline (200 ∷ 100 ∷ 0 ∷ 0 ∷ 0 ∷ 0 ∷ 0 ∷ 0 ∷ []);
}

answer-InBits : InBits answer
answer-InBits = record {
  dst = omega arith;
  src = omega arith;
  cmd = omega arith;
  ack = omega arith;
  req = omega arith;
}

answer_packet-Holds : Holds answer_packet answer
unfolding get_data
answer_packet-Holds = record {
  dst = refl;
  src = refl;
  cmd = refl;
  ack = refl;
  req = refl;
  len = refl;
  stored = (0 ∷ 0 ∷ 0 ∷ 0 ∷ 0 ∷ 0 ∷ [], refl);
}

to_bytes-encode_example :
    packet_to_bytes dirty answer_packet ≡ some (16 ∷ 133 ∷ 2 ∷ 32 ∷ 200 ∷ 100 ∷ 227 ∷ [])
unfolding header_crc
to_bytes-encode_example =
    to_bytes-encode dirty answer_packet answer (replicate 7 170) dirty-IsMalloc answer_packet-Holds
      answer-InBits refl

from_bytes-encode_example :
    (packet : Packet) × (packet_from_bytes clean (16 ∷ 133 ∷ 2 ∷ 32 ∷ 200 ∷ 100 ∷ 227 ∷ 16 ∷ []) 8
      ≡ some (record { packet = packet; end = 7; error = ok }))
    × Holds packet answer
unfolding get_data packet_new header_crc
from_bytes-encode_example =
    from_bytes-encode clean answer (replicate 8 0) (16 ∷ []) clean-IsCalloc answer-InBits
      (omega arith) refl

from_bytes_waits_example :
    packet_from_bytes clean (16 ∷ 133 ∷ 2 ∷ 32 ∷ 200 ∷ 100 ∷ []) 6 ≡ some (failed need_more_data)
unfolding header_crc
from_bytes_waits_example = from_bytes_waits clean answer 6 (omega arith) (omega arith)

abbrev long_frame : Frame
long_frame = record { dst = 0; src = 1; cmd = 5; ack = 0; req = 1; contents = replicate 251 0 }

from_bytes_overruns_example :
    packet_from_bytes clean (encode long_frame ++ []) (length (encode long_frame ++ [])) ≡ none
from_bytes_overruns_example = from_bytes_overruns clean long_frame [] refl (omega arith)

-- The first byte of the contents is 201 in place of 200; another packet follows.
from_bytes_detects_example :
    packet_from_bytes clean (16 ∷ 133 ∷ 2 ∷ 32 ∷ 201 ∷ 100 ∷ 227 ∷ 16 ∷ []) 8
    ≡ some (failed invalid_packet_crc)
unfolding header_crc
from_bytes_detects_example =
    from_bytes_detects clean answer 4 201 (16 ∷ []) answer-InBits (omega arith, (omega arith, tt))
      (omega arith) (omega arith) (omega arith) (λ e. ground (arith, some_injective e))
