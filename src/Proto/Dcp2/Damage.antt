-- ===== src/Proto/Dcp2/Damage.antt =====
-- What `rbc_dcp2_packet_from_bytes` of src/rbc/proto/dcp2/packet.c does with bytes of the format of which
-- one was changed on the way.
use mathlib.Core.List.{append_assoc}
use rubidium_c.Prelude.{
  ℕ, zero, suc, ◌+◌, ◌%◌, ◌≤◌, ◌<◌, ◌≡◌, ◌≢◌, refl, sym, ap, ◌∙◌, true, false, List, [], ◌∷◌, ◌++◌,
  length, set, All, some, get_elem?, Option, arith, ltb, ◌==◌, length-append, length-set,
  set-append_length, get_elem?-append_length, if◌then◌else◌, Bool-cases, inl, inr, le_or_lt,
  equal_of,
}
use rubidium_c.Proto.Dcp2.{
  Dcp2Error, invalid_header_crc, invalid_packet_crc, header_crc, packet_from_bytes, read_body,
  packet_crc_differs, failed,
}
use rubidium_c.Proto.Dcp2.Frame.{
  Frame, InBits, address_byte, command_byte, header_checksum, header, sum, checksum, encode,
}
use rubidium_c.Proto.Dcp2.Encode.{crc_loop-sum, header_crc-sum, checksum-nonempty}
use rubidium_c.Proto.Dcp2.Decode.{
  ==-refl, not_less, packet_size-eq, length-encode, encode-empty, usize_pred-suc,
}

abbrev pub IsByte : ℕ → Type 0
IsByte b = b < 256

-- The error that a change of the byte `i` leads to.
abbrev pub error_at : ℕ → Dcp2Error
error_at i = if ltb i 4 then invalid_header_crc else invalid_packet_crc

not_equal : (a b : ℕ) → a ≢ b → (a == b) ≡ false
not_equal a b differ = elim (Bool-cases (a == b)) [
  | inl same ↦ absurd (differ (equal_of a b same))
  | inr apart ↦ apart
]

-- Sums of the same bytes from different starts differ.
sum-apart : (bytes : List ℕ) (m n : ℕ) → IsByte m → IsByte n → m ≢ n → sum m bytes ≢ sum n bytes
sum-apart [] m n hm hn differ same = differ same
sum-apart (b ∷ bytes) m n hm hn differ same =
    sum-apart bytes ((m + b) % 256) ((n + b) % 256) (omega arith) (omega arith)
      (λ e. differ (omega (arith, e))) same

-- A changed byte changes the sum.
sum-set :
    (bytes : List ℕ) (i v n : ℕ)
    → All IsByte bytes
    → IsByte v
    → i < length bytes
    → get_elem? bytes i ≢ some v
    → sum n (set bytes i v) ≢ sum n bytes
sum-set [] i v n small byte inside differ same = omega arith
sum-set (b ∷ bytes) zero v n (small, rest) byte inside differ same =
    sum-apart bytes ((n + v) % 256) ((n + b) % 256) (omega arith) (omega arith)
      (λ e. differ (ap some (omega (arith, e)))) same
sum-set (b ∷ bytes) (suc i) v n (small, rest) byte inside differ same =
    sum-set bytes i v ((n + b) % 256) rest byte (omega arith) differ same

set-append : (xs ys : List ℕ) (i v : ℕ) → i < length xs → set (xs ++ ys) i v ≡ set xs i v ++ ys
set-append [] ys i v inside = absurd (omega arith)
set-append (x ∷ xs) ys zero v inside = refl
set-append (x ∷ xs) ys (suc i) v inside = ap (λ zs. x ∷ zs) (set-append xs ys i v (omega arith))

get_elem?-append :
    (xs ys : List ℕ) (i : ℕ) → i < length xs → get_elem? (xs ++ ys) i ≡ get_elem? xs i
get_elem?-append [] ys i inside = absurd (omega arith)
get_elem?-append (x ∷ xs) ys zero inside = refl
get_elem?-append (x ∷ xs) ys (suc i) inside = get_elem?-append xs ys i (omega arith)

module _ (calloc : ℕ → Option (List ℕ)) (f : Frame) (short : length f.contents ≤ 250) where
  -- Behind a header that is intact: contents and a checksum that do not fit together.
  crc_differs :
      (body tail : List ℕ) (s : ℕ)
      → 0 < length f.contents
      → length body ≡ length f.contents
      → sum 0 (header f ++ body) ≢ s
      → packet_crc_differs calloc
          ((header f ++ body) ++ s ∷ tail)
          (length f.contents)
          (length (encode f))
        ≡ some true
  unfolding packet_crc_differs
  crc_differs body tail s more same differ =
      rw
        (
          not_equal (length f.contents) 0 (λ e. omega (arith, e)),
          length-encode f more,
          usize_pred-suc (length (header f ++ f.contents)) (omega arith),
          ap (λ n. suc (suc (suc (suc n)))) (sym same),
          crc_loop-sum 0 (header f ++ body) (s ∷ tail),
          ap (get_elem? (body ++ s ∷ tail)) (sym same) ∙ get_elem?-append_length body s tail,
          not_equal (sum 0 (header f ++ body)) s differ,
        )
        refl

  -- A header that is intact, and a packet crc that is not.
  rejected_body :
      (body tail : List ℕ) (s : ℕ)
      → 0 < length f.contents
      → length body ≡ length f.contents
      → sum 0 (header f ++ body) ≢ s
      → packet_from_bytes calloc
          ((header f ++ body) ++ s ∷ tail)
          (length ((header f ++ body) ++ s ∷ tail))
        ≡ some (failed invalid_packet_crc)
  unfolding packet_from_bytes read_body
  rejected_body body tail s more same differ =
      rw
        (
          not_less (length ((header f ++ body) ++ s ∷ tail)) 4 (omega arith),
          header_crc-sum (address_byte f) (command_byte f) (length f.contents),
          ==-refl (header_checksum f),
          packet_size-eq f short,
          not_less (length ((header f ++ body) ++ s ∷ tail)) (length (encode f))
              (omega (arith, length-append body (s ∷ tail), same, length-encode f more)),
          crc_differs body tail s more same differ,
        )
        refl

  rejected_byte :
      (j v : ℕ) (tail : List ℕ)
      → 0 < length f.contents
      → All IsByte f.contents
      → IsByte v
      → j ≤ length f.contents
      → get_elem? (f.contents ++ sum 0 (header f ++ f.contents) ∷ []) j ≢ some v
      → packet_from_bytes calloc
          (header f ++ (set (f.contents ++ sum 0 (header f ++ f.contents) ∷ []) j v ++ tail))
          (length
            (header f ++ (set (f.contents ++ sum 0 (header f ++ f.contents) ∷ []) j v ++ tail)))
        ≡ some (failed invalid_packet_crc)
  rejected_byte j v tail more small byte inside differ = elim (le_or_lt (length f.contents) j) [
    | inl last ↦
        rw (at_end last, set-append_length f.contents s [] v, append_assoc f.contents (v ∷ []) tail)
          (rejected_body f.contents tail v more refl (λ e. differ (
            ap (get_elem? (f.contents ++ s ∷ [])) (at_end last)
            ∙ get_elem?-append_length f.contents s []
            ∙ ap some e)))
    | inr before ↦
        rw
          (
            set-append f.contents (s ∷ []) j v before,
            append_assoc (set f.contents j v) (s ∷ []) tail,
          )
          (rejected_body (set f.contents j v) tail s more (length-set f.contents j v) (
            sum-set f.contents j v (sum 0 (header f)) small byte before
              (λ e. differ (get_elem?-append f.contents (s ∷ []) j before ∙ e))))
  ]
    where
      s : ℕ
      s = sum 0 (header f ++ f.contents)

      at_end : length f.contents ≤ j → j ≡ length f.contents
      at_end last = omega arith

rejected_header :
    (calloc : ℕ → Option (List ℕ)) (d0 d1 d2 d3 : ℕ) (rest : List ℕ)
    → d3 ≢ header_crc d0 d1 d2
    → packet_from_bytes calloc (d0 ∷ d1 ∷ d2 ∷ d3 ∷ rest) (length (d0 ∷ d1 ∷ d2 ∷ d3 ∷ rest))
      ≡ some (failed invalid_header_crc)
unfolding packet_from_bytes
rejected_header calloc d0 d1 d2 d3 rest differ =
    rw
      (
        not_less (length (d0 ∷ d1 ∷ d2 ∷ d3 ∷ rest)) 4 (omega arith),
        not_equal d3 (header_crc d0 d1 d2) differ,
      )
      refl

module _ (f : Frame) where
  nonempty : (j : ℕ) → suc (suc (suc (suc j))) < length (encode f) → 0 < length f.contents
  nonempty j inside = elim (le_or_lt (length f.contents) 0) [
    | inl nothing ↦ absurd (omega (arith, encode-empty f (omega arith)))
    | inr more ↦ more
  ]

-- For a frame whose fields fit their bits and whose contents are 250 bytes at most: where one byte of
-- its bytes was changed to another, whatever follows them, nothing is read. A change among the first
-- four bytes is reported as an invalid crc of the header, one behind them as that of the packet.
pub from_bytes_detects :
    (calloc : ℕ → Option (List ℕ)) (f : Frame) (i v : ℕ) (tail : List ℕ)
    → InBits f
    → All IsByte f.contents
    → length f.contents ≤ 250
    → i < length (encode f)
    → IsByte v
    → get_elem? (encode f) i ≢ some v
    → packet_from_bytes calloc (set (encode f) i v ++ tail) (length (set (encode f) i v ++ tail))
      ≡ some (failed (error_at i))
unfolding header_crc
from_bytes_detects calloc f zero v tail bits small short inside byte differ =
    rejected_header calloc v _ _ _ _ (λ e. differ (ap some (omega (arith, e, bits.dst, bits.src))))
from_bytes_detects calloc f (suc zero) v tail bits small short inside byte differ =
    rejected_header calloc _ v _ _ _
      (λ e. differ (ap some (omega (arith, e, bits.cmd, bits.ack, bits.req))))
from_bytes_detects calloc f (suc (suc zero)) v tail bits small short inside byte differ =
    rejected_header calloc _ _ v _ _ (λ e. differ (ap some (omega (arith, e))))
from_bytes_detects calloc f (suc (suc (suc zero))) v tail bits small short inside byte differ =
    rejected_header calloc _ _ _ v _ (λ e. differ (
      ap some
        (omega (arith, e, header_crc-sum (address_byte f) (command_byte f) (length f.contents)))))
from_bytes_detects calloc f (suc (suc (suc (suc j)))) v tail bits small short inside byte differ =
    rw (not_less (suc (suc (suc (suc j)))) 4 (omega arith), summed)
      (rejected_byte calloc f short j v tail (nonempty f j inside) small byte
        (omega (arith, length-encode f (nonempty f j inside)))
        (λ e. differ (ap (λ zs. get_elem? (f.contents ++ zs) j) summed ∙ e)))
  where
    summed : checksum f f.contents ≡ sum 0 (header f ++ f.contents) ∷ []
    summed = checksum-nonempty f f.contents (nonempty f j inside)
