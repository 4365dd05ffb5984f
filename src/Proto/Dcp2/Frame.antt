-- ===== src/Proto/Dcp2/Frame.antt =====
-- What the packets of src/rbc/proto/dcp2 stand for, and the format that the comment at
-- `rbc_dcp2_packet_from_bytes` describes: header, data, and a checksum behind data that is not empty.
-- The comment does not say how the checksums are made; here both are sums of bytes.
use rubidium_c.Prelude.{
  ℕ, ◌+◌, ◌*◌, ◌%◌, ◌<◌, ◌≡◌, List, [], ◌∷◌, ◌++◌, length, some, replicate, Option,
}
use rubidium_c.Proto.Dcp2.{Packet, get_data}

pub record Frame : Type 0 where
  pub dst : ℕ
  pub src : ℕ
  pub cmd : ℕ
  pub ack : ℕ
  pub req : ℕ
  pub contents : List ℕ

-- The fields fit their bits.
pub record InBits (f : Frame) : Type 0 where
  pub dst : f.dst < 16
  pub src : f.src < 16
  pub cmd : f.cmd < 32
  pub ack : f.ack < 4
  pub req : f.req < 2

-- The packet has these fields, and its storage starts with the contents.
pub record Holds (p : Packet) (f : Frame) : Type 0 where
  pub dst : p.dst ≡ f.dst
  pub src : p.src ≡ f.src
  pub cmd : p.cmd ≡ f.cmd
  pub ack : p.ack ≡ f.ack
  pub req : p.req ≡ f.req
  pub len : p.len ≡ length f.contents
  pub stored : (rest : List ℕ) × (get_data p ≡ some (f.contents ++ rest))

abbrev pub address_byte : Frame → ℕ
address_byte f = f.dst + f.src * 16

abbrev pub command_byte : Frame → ℕ
command_byte f = f.cmd + f.ack * 32 + f.req * 128

-- The sum of bytes, in a byte.
abbrev pub sum : ℕ → List ℕ → ℕ
sum n [] = n
sum n (b ∷ bytes) = sum ((n + b) % 256) bytes

-- The checksum of the header is the sum of its first three bytes and of 137.
abbrev pub header_checksum : Frame → ℕ
header_checksum f = sum 137 (address_byte f ∷ command_byte f ∷ length f.contents ∷ [])

abbrev pub header : Frame → List ℕ
header f = address_byte f ∷ command_byte f ∷ length f.contents ∷ header_checksum f ∷ []

-- The checksum covers the header and the contents; empty contents have none.
abbrev pub checksum : Frame → List ℕ → List ℕ
checksum f [] = []
checksum f (b ∷ contents) = sum 0 (header f ++ b ∷ contents) ∷ []

abbrev pub encode : Frame → List ℕ
encode f = header f ++ (f.contents ++ checksum f f.contents)

-- What the C standard says of `malloc` and `calloc`: a block has the size asked for, and that of
-- `calloc` is zero.
abbrev pub IsMalloc : (ℕ → Option (List ℕ)) → Type 0
IsMalloc malloc = (n : ℕ) (block : List ℕ) → malloc n ≡ some block → length block ≡ n

abbrev pub IsCalloc : (ℕ → Option (List ℕ)) → Type 0
IsCalloc calloc = (n : ℕ) (block : List ℕ) → calloc n ≡ some block → block ≡ replicate n 0
