-- ===== src/Proto/Dcp2/Encode.antt =====
-- `rbc_dcp2_packet_to_bytes` of src/rbc/proto/dcp2/packet.c writes the format.
use native.Mathlib.Nat.{mod-eq_of_lt}
use rubidium_c.Prelude.{
  ℕ, suc, ◌+◌, ◌-◌, ◌%◌, ◌<◌, ◌≡◌, refl, sym, ap, true, false, List, [], ◌∷◌, ◌++◌, length, some,
  take, drop, Option, arith, store, memcpy, ltb, leb, length-append, take-length-append,
  take-append-drop, length-take, length-drop, drop-length-append, set-append_length, if◌then◌else◌,
  ◌∙◌,
}
use rubidium_c.Proto.Dcp2.{
  Packet, header_crc, crc_loop, packet_to_bytes, write_header, write_packet_crc,
}
use rubidium_c.Proto.Dcp2.Frame.{
  Frame, IsMalloc, InBits, Holds, address_byte, command_byte, header_checksum, header, sum,
  checksum, encode,
}

pub crc_loop-sum :
    (n : ℕ) (bytes rest : List ℕ) → crc_loop n (bytes ++ rest) (length bytes) ≡ some (sum n bytes)
unfolding crc_loop
crc_loop-sum n [] rest = refl
crc_loop-sum n (b ∷ bytes) rest = crc_loop-sum ((n + b) % 256) bytes rest

-- The code adds up before it cuts the sum to a byte.
pub header_crc-sum : (a b c : ℕ) → header_crc a b c ≡ sum 137 (a ∷ b ∷ c ∷ [])
unfolding header_crc
header_crc-sum a b c = omega arith

pub enough_input :
    (contents rest : List ℕ) → leb (length contents) (length (contents ++ rest)) ≡ true
enough_input contents rest = ground (arith, length-append contents rest)

enough_room :
    (h0 h1 h2 h3 : ℕ) (old contents post : List ℕ)
    → length old ≡ length contents
    → leb (4 + length contents) (length (h0 ∷ h1 ∷ h2 ∷ h3 ∷ (old ++ post))) ≡ true
enough_room h0 h1 h2 h3 old contents post same = ground (arith, length-append old post, same)

some_left : (n : ℕ) → ltb 0 (suc n) ≡ true
some_left n = ground arith

last_index : (n : ℕ) → n + 1 - 1 ≡ n
last_index n = omega arith

in_block : (bytes : List ℕ) (b : ℕ) → ltb (length bytes) (length (bytes ++ b ∷ [])) ≡ true
in_block bytes b = ground (arith, length-append bytes (b ∷ []))

four_more : (n : ℕ) → 4 + n ≡ suc (suc (suc (suc n)))
four_more n = omega arith

-- The contents behind a header of four bytes.
pub memcpy-header :
    (h0 h1 h2 h3 : ℕ) (old contents rest post : List ℕ)
    → length old ≡ length contents
    → memcpy (h0 ∷ h1 ∷ h2 ∷ h3 ∷ (old ++ post)) 4 (contents ++ rest) (length contents)
      ≡ some (h0 ∷ h1 ∷ h2 ∷ h3 ∷ (contents ++ post))
memcpy-header h0 h1 h2 h3 old contents rest post same =
    rw
      (
        enough_input contents rest,
        enough_room h0 h1 h2 h3 old contents post same,
        four_more (length contents),
        sym same,
        drop-length-append old post,
        same,
        take-length-append contents rest,
      )
      refl

address-in_byte : (f : Frame) → InBits f → address_byte f % 256 ≡ address_byte f
address-in_byte f bits =
    mod-eq_of_lt {n = address_byte f} {m = 256} (omega (arith, bits.dst, bits.src))

command-in_byte : (f : Frame) → InBits f → command_byte f % 256 ≡ command_byte f
command-in_byte f bits =
    mod-eq_of_lt {n = command_byte f} {m = 256} (omega (arith, bits.cmd, bits.ack, bits.req))

store-first : (a v : ℕ) (t : List ℕ) → store (a ∷ t) 0 v ≡ some (v ∷ t)
store-first a v t = ground arith

store-second : (a b v : ℕ) (t : List ℕ) → store (a ∷ b ∷ t) 1 v ≡ some (a ∷ v ∷ t)
store-second a b v t = ground arith

store-third : (a b c v : ℕ) (t : List ℕ) → store (a ∷ b ∷ c ∷ t) 2 v ≡ some (a ∷ b ∷ v ∷ t)
store-third a b c v t = ground arith

store-fourth :
    (a b c d v : ℕ) (t : List ℕ) → store (a ∷ b ∷ c ∷ d ∷ t) 3 v ≡ some (a ∷ b ∷ c ∷ v ∷ t)
store-fourth a b c d v t = ground arith

-- The last byte becomes the sum of those before it.
write_packet_crc-last :
    (bytes : List ℕ) (b : ℕ)
    → write_packet_crc (bytes ++ b ∷ []) (length bytes + 1) ≡ some (bytes ++ sum 0 bytes ∷ [])
unfolding write_packet_crc
write_packet_crc-last bytes b =
    rw
      (
        last_index (length bytes),
        crc_loop-sum 0 bytes (b ∷ []),
        in_block bytes b,
        set-append_length bytes b [] (sum 0 bytes),
      )
      refl

pub checksum-empty :
    (f : Frame) (contents : List ℕ) → length contents ≡ 0 → checksum f contents ≡ []
checksum-empty f [] nothing = refl
checksum-empty f (b ∷ contents) nothing = absurd (omega (arith, nothing))

pub checksum-nonempty :
    (f : Frame) (contents : List ℕ)
    → 0 < length contents
    → checksum f contents ≡ sum 0 (header f ++ contents) ∷ []
checksum-nonempty f [] more = absurd (omega arith)
checksum-nonempty f (b ∷ contents) more = refl

module _ (malloc : ℕ → Option (List ℕ)) (p : Packet) (f : Frame) (holds : Holds p f)
    (bits : InBits f) (b0 b1 b2 b3 : ℕ) where
  write_header-eq : (t : List ℕ) → write_header p (b0 ∷ b1 ∷ b2 ∷ b3 ∷ t) ≡ some (header f ++ t)
  unfolding write_header
  write_header-eq t =
      rw
        (
          holds.dst,
          holds.src,
          holds.cmd,
          holds.ack,
          holds.req,
          holds.len,
          address-in_byte f bits,
          command-in_byte f bits,
          header_crc-sum (address_byte f) (command_byte f) (length f.contents),
          store-first b0 (address_byte f) (b1 ∷ b2 ∷ b3 ∷ t),
          store-second (address_byte f) b1 (command_byte f) (b2 ∷ b3 ∷ t),
          store-third (address_byte f) (command_byte f) b2 (length f.contents) (b3 ∷ t),
          store-fourth (address_byte f) (command_byte f) (length f.contents) b3 (header_checksum f)
              t,
        )
        refl

  filled-eq :
      (old post rest : List ℕ)
      → length old ≡ length f.contents
      → memcpy (header f ++ (old ++ post)) 4 (f.contents ++ rest) p.len
        ≡ some (header f ++ (f.contents ++ post))
  filled-eq old post rest same = rw holds.len (
      memcpy-header (address_byte f) (command_byte f) (length f.contents) (header_checksum f) old
        f.contents rest post same)

  -- The block as it comes, the part for the contents split off.
  bytes_written :
      (old post : List ℕ)
      → length old ≡ length f.contents
      → length post ≡ (if ltb 0 (length f.contents) then 1 else 0)
      → malloc (4 + p.len + (if ltb 0 p.len then 1 else 0))
        ≡ some (b0 ∷ b1 ∷ b2 ∷ b3 ∷ (old ++ post))
      → packet_to_bytes malloc p ≡ some (encode f)
  unfolding packet_to_bytes
  bytes_written old [] same_old same_post block =
      rw
        (
          block,
          write_header-eq (old ++ []),
          holds.stored.1,
          filled-eq old [] holds.stored.0 same_old,
          no_crc,
          checksum-empty f f.contents none,
        )
        refl
    where
      none : length f.contents ≡ 0
      none = ground (arith, same_post)

      no_crc : ltb 0 p.len ≡ false
      no_crc = rw holds.len (ground (arith, none))
  bytes_written old (b ∷ []) same_old same_post block =
      rw
        (
          block,
          write_header-eq (old ++ b ∷ []),
          holds.stored.1,
          filled-eq old (b ∷ []) holds.stored.0 same_old,
          with_crc,
          size_eq,
          write_packet_crc-last (header f ++ f.contents) b,
          checksum-nonempty f f.contents some_bytes,
        )
        refl
    where
      some_bytes : 0 < length f.contents
      some_bytes = ground (arith, same_post)

      with_crc : ltb 0 p.len ≡ true
      with_crc = rw holds.len (ground (arith, some_bytes))

      size_eq : 4 + p.len + 1 ≡ length (header f ++ f.contents) + 1
      size_eq = rw holds.len (omega arith)
  bytes_written old (b ∷ b' ∷ post) same_old same_post block = ground (arith, same_post)

block_written :
    (malloc : ℕ → Option (List ℕ)) (p : Packet) (f : Frame) (block : List ℕ)
    → Holds p f
    → InBits f
    → malloc (4 + p.len + (if ltb 0 p.len then 1 else 0)) ≡ some block
    → length block ≡ 4 + p.len + (if ltb 0 p.len then 1 else 0)
    → packet_to_bytes malloc p ≡ some (encode f)
block_written malloc p f [] holds bits allocated size = absurd (omega (arith, size))
block_written malloc p f (_ ∷ []) holds bits allocated size = absurd (omega (arith, size))
block_written malloc p f (_ ∷ _ ∷ []) holds bits allocated size = absurd (omega (arith, size))
block_written malloc p f (_ ∷ _ ∷ _ ∷ []) holds bits allocated size = absurd (omega (arith, size))
block_written malloc p f (b0 ∷ b1 ∷ b2 ∷ b3 ∷ t) holds bits allocated size =
    bytes_written malloc p f holds bits b0 b1 b2 b3 (take n t) (drop n t)
      (omega (arith, length-take n t, size, holds.len))
      (ground (arith, length-drop n t, size, holds.len))
      (allocated ∙ ap (λ zs. some (b0 ∷ b1 ∷ b2 ∷ b3 ∷ zs)) (sym (take-append-drop n t)))
  where
    n : ℕ
    n = length f.contents

-- Where `malloc` returns a block, of the size it is asked for, a packet that holds a frame whose
-- fields fit their bits is written in the format: the header with its checksum, the contents, and
-- behind contents that are not empty the checksum of both.
pub to_bytes-encode :
    (malloc : ℕ → Option (List ℕ)) (p : Packet) (f : Frame) (block : List ℕ)
    → IsMalloc malloc
    → Holds p f
    → InBits f
    → malloc (4 + p.len + (if ltb 0 p.len then 1 else 0)) ≡ some block
    → packet_to_bytes malloc p ≡ some (encode f)
to_bytes-encode malloc p f block lawful holds bits allocated =
    block_written malloc p f block holds bits allocated (lawful _ block allocated)
