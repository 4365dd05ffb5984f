-- ===== src/Core/SourceLocation.antt =====
-- src/rbc/core/source_location.c and source_location.h. A text is the list of its bytes; `digits` is what
-- the conversion %u of <stdio.h> and `<<` of <ostream> write of an unsigned number.
use rubidium_c.Prelude.{ℕ, Bool, true, false, if◌then◌else◌, List, [], ◌∷◌, ◌++◌, ◌≡◌}
use mathlib.Core.List.{append_assoc, append-nil}

pub record SourceLocation : Type 0 where
  pub file : List ℕ
  pub func : List ℕ
  pub line : ℕ
  pub column : ℕ

-- `has_column` stands for RBC_HAS(BUILTIN_COLUMN); without it no column is kept.
unfoldable pub current : Bool → List ℕ → ℕ → List ℕ → ℕ → SourceLocation
current has_column file line func column = record {
  file = file;
  func = func;
  line = line;
  column = if has_column then column else 0;
}

module _ (has_column full_info : Bool) (digits : ℕ → List ℕ) where
  -- What is written to the file.
  unfoldable pub print_to : SourceLocation → List ℕ
  print_to loc =
      loc.file
      ++ (b':' ∷ digits loc.line)
      ++ (if full_info
          then (if has_column then b':' ∷ digits loc.column else [])
            ++ (b' ' ∷ b'(' ∷ loc.func ++ b')' ∷ [])
          else [])

  -- The operator `<<`, behind what the stream has.
  unfoldable pub put_to : List ℕ → SourceLocation → List ℕ
  put_to os loc =
      let line = (os ++ loc.file ++ b':' ∷ []) ++ digits loc.line in
      if full_info
      then (let column = if has_column then (line ++ b':' ∷ []) ++ digits loc.column else line in
          column ++ (b' ' ∷ b'(' ∷ []) ++ loc.func ++ b')' ∷ [])
      else line

-- Whatever is enabled, what the operator `<<` puts behind the stream is what print_to writes.
pub put_to-print_to :
    (has_column full_info : Bool) (digits : ℕ → List ℕ) (os : List ℕ) (loc : SourceLocation)
    → put_to has_column full_info digits os loc ≡ os ++ print_to has_column full_info digits loc
unfolding put_to print_to
put_to-print_to true true digits os loc = simp (append_assoc, append-nil)
put_to-print_to false true digits os loc = simp (append_assoc, append-nil)
put_to-print_to true false digits os loc = simp (append_assoc, append-nil)
put_to-print_to false false digits os loc = simp (append_assoc, append-nil)
