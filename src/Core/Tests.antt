-- ===== src/Core/Tests.antt =====
-- The theorems on src/rbc/core at concrete inputs, and runs.
use rubidium_c.Prelude.{◌≡◌, arith}
use rubidium_c.Prelude.{ℕ, refl, List, [], ◌∷◌, some}
use rubidium_c.Prelude.Int.{negsuc}
use rubidium_c.Core.Bits.{i32, little, big, bswap_u32, to_be, to_le}
use rubidium_c.Core.Bits.Bytes.{memory}
use rubidium_c.Core.Bits.Swap.{stored_order}
use rubidium_c.Core.Error.{timed_out}
use rubidium_c.Core.Error.Numbers.{number, number-injective}
use rubidium_c.Core.Error.Table.{message}
use rubidium_c.Core.Error.Message.{to_string, copy_text}
use rubidium_c.Core.Error.Message.Lookup.{spoken, to_string_named}
use rubidium_c.Core.Error.Message.Buffer.{Outcome, copy_text_lem}
use rubidium_c.Core.Version.{Version, pack, unpack, lt, le, gt, ge, eq, ne}
use rubidium_c.Core.Version.Packing.{InBits, packing_lem}
use rubidium_c.Core.Version.Order.{Before, order_lem}
use rubidium_c.Prelude.{ltb, true, false, not, if◌then◌else◌, ◌↔◌, ◌⊎◌}

abbrev older : Version
older = record { major = 1; minor = 2; patch = 300 }

abbrev newer : Version
newer = record { major = 1; minor = 3; patch = 0 }

older-InBits : InBits older
older-InBits = record { major = omega arith; minor = omega arith; patch = omega arith }

newer-InBits : InBits newer
newer-InBits = record { major = omega arith; minor = omega arith; patch = omega arith }

packing_lem_example :
    (unpack (pack older) ≡ older)
    × (pack (unpack 16_908_588) ≡ 16_908_588)
    × (lt older newer ≡ ltb (pack older) (pack newer))
packing_lem_example = packing_lem older newer 16_908_588 older-InBits newer-InBits (omega arith)

order_lem_example :
    ((lt older newer ≡ true) ↔ Before older newer)
    × (((lt older newer ≡ true) × (eq older newer ≡ false) × (gt older newer ≡ false))
        ⊎ ((lt older newer ≡ false) × (eq older newer ≡ true) × (gt older newer ≡ false))
        ⊎ ((lt older newer ≡ false) × (eq older newer ≡ false) × (gt older newer ≡ true)))
    × (le older newer ≡ (if lt older newer then true else eq older newer))
    × (ge older newer ≡ (if gt older newer then true else eq older newer))
    × (ne older newer ≡ not (eq older newer))
order_lem_example = order_lem older newer

stored_order_example :
    (memory big (to_be big (i32 (negsuc 258))) ≡ memory big (i32 (negsuc 258)))
    × (memory big (to_le big (i32 (negsuc 258))) ≡ memory little (i32 (negsuc 258)))
stored_order_example = stored_order big (i32 (negsuc 258))

bswap_run : bswap_u32 305419896 ≡ 2018915346
unfolding bswap_u32
bswap_run = refl

to_string_named_example : to_string number (number timed_out) ≡ message (spoken number timed_out)
to_string_named_example =
    to_string_named number timed_out (λ i j d e _ _ same. number-injective d e same)

-- "Ok"
abbrev ok_text : List ℕ
ok_text = b'O' ∷ b'k' ∷ []

copy_text_lem_example :
    Outcome (9 ∷ 9 ∷ 9 ∷ 9 ∷ []) 4 ok_text (copy_text (some (9 ∷ 9 ∷ 9 ∷ 9 ∷ [])) 4 ok_text)
copy_text_lem_example = copy_text_lem (9 ∷ 9 ∷ 9 ∷ 9 ∷ []) 4 ok_text (omega arith)
