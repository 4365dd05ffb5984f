-- ===== src/Core/Error/Message.antt =====
-- The functions of src/rbc/core/error.c on every platform. An `rbc_error` is an integer; the numbers of
-- the codes are the platform's, a parameter. A text is a string, in a buffer the list of its bytes.
pub mod Lookup
pub mod Buffer
use Prim.Native.String.{String}
use Prim.Native.Char.{code}
use rubidium_c.Prelude.{
  ℕ, ◌+◌, ◌-◌, ◌^◌, Bool, true, false, ltb, leb, ◌==◌, if◌then◌else◌, Option, none, some, List, [],
  ◌∷◌, length, ◌>>=◌, store, memcpy,
}
use rubidium_c.Prelude.Int.{ℤ, pos, ◌==ℤ◌, wrap}
use rubidium_c.Prelude.Word.{u32_of}
use rubidium_c.Core.Error.{Error, not_supported, resource_unavailable_try_again}
use rubidium_c.Core.Error.Table.{message, cases}

-- On POSIX the last error is `errno`, read as an unsigned code, and the code is the error's number.
pub get_last_error : ℤ → ℕ
get_last_error errno = u32_of errno

pub from_error_code : ℕ → ℤ
from_error_code code = wrap (2 ^ 31) (pos code)

pub from_last_error : ℤ → ℤ
from_last_error errno = from_error_code (get_last_error errno)

module _ (value : Error → ℤ) where
  pub switch : ℤ → List Error → String
  switch error [] = "Undefined error"
  switch error (e ∷ es) =
      let rest = switch error es in if value e ==ℤ error then message e else rest

  pub to_string : ℤ → String
  to_string error =
      if error ==ℤ value not_supported
      then message not_supported
      else if error ==ℤ value resource_unavailable_try_again
      then message resource_unavailable_try_again
      else switch error cases

-- The bytes of an ASCII text.
abbrev pub codes : String → List ℕ
codes String.[] = []
codes (String.◌∷◌ c s) = code c ∷ codes s

-- Three dots and a null byte behind the start of a text.
pub append_dots : List ℕ → ℕ → Option (Bool × Option (List ℕ))
append_dots copied copy_len = store copied copy_len b'.' >>= λ first.
    store first (copy_len + 1) b'.' >>= λ second. store second (copy_len + 2) b'.' >>= λ third.
    store third (copy_len + 3) 0 >>= λ ended. some (true, some ended)

-- `rbc_error_to_string_s` once the text is there; the null byte behind the text is not part of `desc`.
-- The result is what is returned, and the buffer as it is left.
pub copy_text : Option (List ℕ) → ℕ → List ℕ → Option (Bool × Option (List ℕ))
copy_text none size desc = some (false, none)
copy_text (some buf) size desc =
    if size == 0
    then some (false, some buf)
    else if ltb (length desc) size
    then (memcpy buf 0 desc (length desc) >>= λ copied.
        store copied (length desc) 0 >>= λ ended. some (true, some ended))
    else if leb size 3
    then some (false, some buf)
    else (memcpy buf 0 desc (size - 4) >>= λ copied. append_dots copied (size - 4))

pub to_string_s : (Error → ℤ) → Option (List ℕ) → ℕ → ℤ → Option (Bool × Option (List ℕ))
to_string_s value buf size error = copy_text buf size (codes (to_string value error))
