-- ===== src/Proto/Dcp2/Print.antt =====
-- `rbc_dcp2_packet_print` of src/rbc/proto/dcp2/packet.c. The text that is printed is the list of its
-- bytes; `digits` is what %u prints of a number, `hex` what %02X does.
use rubidium_c.Prelude.{
  ℕ, zero, suc, ◌+◌, ◌-◌, ◌==◌, if◌then◌else◌, Option, some, List, ◌++◌, get_elem?, ◌>>=◌,
}
use rubidium_c.Core.Error.Message.{codes}
use rubidium_c.Proto.Dcp2.{Packet, get_data}

module _ (digits hex : ℕ → List ℕ) where
  -- From the index `idx` on, so many bytes.
  pub print_rest : List ℕ → ℕ → ℕ → Option (List ℕ)
  print_rest block idx zero = some (codes "]}")
  print_rest block idx (suc rounds) = get_elem? block idx >>= λ b.
      print_rest block (idx + 1) rounds >>= λ rest. some (codes ", 0x" ++ hex b ++ rest)

  pub print_data : List ℕ → ℕ → Option (List ℕ)
  print_data block len =
      if len == 0
      then print_rest block 1 0
      else (get_elem? block 0 >>= λ b.
          print_rest block 1 (len - 1) >>= λ rest. some (codes "0x" ++ hex b ++ rest))

  pub packet_print : Packet → Option (List ℕ)
  packet_print self = get_data self >>= λ block. print_data block self.len >>= λ contents. some (
      codes "dcp2::packet{src: "
      ++ digits self.src
      ++ codes ", dst: "
      ++ digits self.dst
      ++ codes ", cmd: "
      ++ digits self.cmd
      ++ codes ", ack: "
      ++ digits self.ack
      ++ codes ", req: "
      ++ digits self.req
      ++ codes ", data: ["
      ++ contents)
