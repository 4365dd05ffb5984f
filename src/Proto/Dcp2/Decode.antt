-- ===== src/Proto/Dcp2/Decode.antt =====
-- `rbc_dcp2_packet_from_bytes` of src/rbc/proto/dcp2/packet.c on bytes of the format.
use mathlib.Core.List.{append_assoc}
use rubidium_c.Prelude.{
  ℕ, ◌+◌, ◌/◌, ◌%◌, ◌≤◌, ◌<◌, ◌≡◌, refl, ap, true, false, List, [], ◌∷◌, ◌++◌, length, some, none,
  drop, Option, arith, memcpy, ltb, leb, ◌==◌, length-append, length-replicate, take-length-append,
  get_elem?-append_length, if◌then◌else◌, Bool-cases, inl, inr,
}
use rubidium_c.Proto.Dcp2.{
  Packet, Storage, inline, heap, get_data, with_data, packet_new, packet_from_bytes, read_packet,
  read_body, packet_crc_differs, usize_pred, pointer_size, ok,
}
use rubidium_c.Proto.Dcp2.Frame.{
  Frame, InBits, Holds, IsCalloc, address_byte, command_byte, header_checksum, header, sum,
  checksum, encode,
}
use rubidium_c.Proto.Dcp2.Encode.{
  crc_loop-sum, header_crc-sum, enough_input, checksum-empty, checksum-nonempty,
}

get_data-with_data : (p : Packet) (bytes : List ℕ) → get_data (with_data p bytes) ≡ some bytes
unfolding get_data
get_data-with_data p bytes = by_storage p.storage
  where
    by_storage :
        (s : Storage)
        → elim (elim s as (λ _. Storage) [ inline _ ↦ inline bytes | heap _ ↦ heap (some bytes) ])
            as (λ _. Option (List ℕ)) [ inline b ↦ some b | heap block ↦ block ]
          ≡ some bytes
    by_storage (inline _) = refl
    by_storage (heap _) = refl

pub some_injective {ℓ} : {A : Type ℓ} {a b : A} → some a ≡ some b → a ≡ b
some_injective {a = a} e = ap (λ o. elim o [ none ↦ a | some x ↦ x ]) e

pub ==-refl : (n : ℕ) → (n == n) ≡ true
==-refl n = ground arith

zero_add : (n : ℕ) → 0 + n ≡ n
zero_add n = omega arith

le→leb : (a b : ℕ) → a ≤ b → leb a b ≡ true
le→leb a b h = ground arith

pub usize_pred-suc : (n : ℕ) → n < 256 → usize_pred (n + 1) ≡ n
usize_pred-suc n small = omega arith

room-length :
    (calloc : ℕ → Option (List ℕ)) (n : ℕ) (room : List ℕ)
    → IsCalloc calloc
    → get_data (packet_new calloc n) ≡ some room
    → n ≤ length room
unfolding get_data packet_new
room-length calloc n room lawful allocated = elim (Bool-cases (leb n pointer_size)) [
  | inl fits ↦ let same = some_injective (rw fits at allocated) in ground (arith, ap length same)
  | inr large ↦
      omega (arith, ap length (lawful n room (rw large at allocated)), length-replicate {A = ℕ} n 0)
]

module _ (f : Frame) where
  pub encode-empty : length f.contents ≡ 0 → length (encode f) ≡ 4
  encode-empty nothing =
      rw (checksum-empty f f.contents nothing) (omega (arith, length-append f.contents [], nothing))

  pub encode-nonempty :
      (tail : List ℕ)
      → 0 < length f.contents
      → encode f ++ tail ≡ (header f ++ f.contents) ++ (sum 0 (header f ++ f.contents) ∷ tail)
  encode-nonempty tail more =
      rw
        (
          checksum-nonempty f f.contents more,
          append_assoc f.contents (sum 0 (header f ++ f.contents) ∷ []) tail,
        )
        refl

  pub length-encode :
      0 < length f.contents → length (encode f) ≡ length (header f ++ f.contents) + 1
  length-encode more =
      rw (checksum-nonempty f f.contents more)
        (omega (arith, length-append f.contents (sum 0 (header f ++ f.contents) ∷ [])))

  pub packet_size-eq :
      length f.contents ≤ 250
      → (4 + length f.contents + (if length f.contents == 0 then 0 else 1)) % 256
        ≡ length (encode f)
  packet_size-eq short = elim (Bool-cases (length f.contents == 0)) [
    | inl nothing ↦ ground (arith, encode-empty (ground arith))
    | inr more ↦ ground (arith, length-encode (ground arith))
  ]

  crc_agrees :
      (calloc : ℕ → Option (List ℕ)) (tail : List ℕ)
      → length f.contents ≤ 250
      → packet_crc_differs calloc (encode f ++ tail) (length f.contents) (length (encode f))
        ≡ some false
  unfolding packet_crc_differs
  crc_agrees calloc tail short = elim (Bool-cases (length f.contents == 0)) [
    | inl nothing ↦ rw nothing refl
    | inr more ↦
        rw
          (
            more,
            encode-nonempty tail (ground arith),
            length-encode (ground arith),
            usize_pred-suc (length (header f ++ f.contents)) (omega arith),
            crc_loop-sum 0 (header f ++ f.contents) (sum 0 (header f ++ f.contents) ∷ tail),
            get_elem?-append_length (header f ++ f.contents) (sum 0 (header f ++ f.contents)) tail,
            ==-refl (sum 0 (header f ++ f.contents)),
          )
          refl
  ]

  -- The packet that the contents are copied into.
  abbrev packet_of : (ℕ → Option (List ℕ)) → List ℕ → Packet
  packet_of calloc room =
      with_data
        (record (packet_new calloc (length f.contents)) {
          dst = address_byte f % 16;
          src = address_byte f / 16 % 16;
          cmd = command_byte f % 32;
          ack = command_byte f / 32 % 4;
          req = command_byte f / 128 % 2;
          len = length f.contents;
        })
        (f.contents ++ drop (length f.contents) room)

  packet_of-Holds :
      (calloc : ℕ → Option (List ℕ)) (room : List ℕ) → InBits f → Holds (packet_of calloc room) f
  packet_of-Holds calloc room bits = record {
    dst = omega (arith, bits.dst);
    src = omega (arith, bits.dst, bits.src);
    cmd = omega (arith, bits.cmd);
    ack = omega (arith, bits.cmd, bits.ack);
    req = omega (arith, bits.cmd, bits.ack, bits.req);
    len = refl;
    stored = (
      drop (length f.contents) room,
      get_data-with_data _ (f.contents ++ drop (length f.contents) room),
    );
  }

  memcpy-contents :
      (room tail : List ℕ)
      → length f.contents ≤ length room
      → memcpy room 0 (f.contents ++ tail) (length f.contents)
        ≡ some (f.contents ++ drop (length f.contents) room)
  memcpy-contents room tail enough =
      rw
        (
          enough_input f.contents tail,
          zero_add (length f.contents),
          le→leb (length f.contents) (length room) enough,
          take-length-append f.contents tail,
        )
        refl

  packet_read :
      (calloc : ℕ → Option (List ℕ)) (room tail : List ℕ)
      → IsCalloc calloc
      → get_data (packet_new calloc (length f.contents)) ≡ some room
      → read_packet calloc
          (encode f ++ tail)
          (address_byte f)
          (command_byte f)
          (length f.contents)
          (length (encode f))
        ≡ some (record { packet = packet_of calloc room; end = length (encode f); error = ok })
  unfolding read_packet get_data
  packet_read calloc room tail lawful allocated =
      rw
        (
          allocated,
          append_assoc f.contents (checksum f f.contents) tail,
          memcpy-contents room (checksum f f.contents ++ tail)
              (room-length calloc (length f.contents) room lawful allocated),
        )
        refl

pub not_less : (a b : ℕ) → b ≤ a → ltb a b ≡ false
not_less a b h = ground arith

-- For a frame whose fields fit their bits and whose contents are 250 bytes at most, and where the
-- storage for the contents can be allocated: from the bytes of the format, whatever follows them, a
-- packet is read that holds the frame, with no error and the end right behind its bytes.
pub from_bytes-encode :
    (calloc : ℕ → Option (List ℕ)) (f : Frame) (room tail : List ℕ)
    → IsCalloc calloc
    → InBits f
    → length f.contents ≤ 250
    → get_data (packet_new calloc (length f.contents)) ≡ some room
    → (packet : Packet) × (packet_from_bytes calloc (encode f ++ tail) (length (encode f ++ tail))
        ≡ some (record { packet = packet; end = length (encode f); error = ok }))
      × Holds packet f
unfolding packet_from_bytes read_body
from_bytes-encode calloc f room tail lawful bits short allocated = (
  packet_of f calloc room,
  rw
      (
        not_less (length (encode f ++ tail)) 4 (omega arith),
        header_crc-sum (address_byte f) (command_byte f) (length f.contents),
        ==-refl (header_checksum f),
        packet_size-eq f short,
        not_less (length (encode f ++ tail)) (length (encode f))
            (omega (arith, length-append (encode f) tail)),
        crc_agrees f calloc tail short,
        packet_read f calloc room tail lawful allocated,
      )
      refl,
  packet_of-Holds f calloc room bits,
)
