-- ===== src/CString.antt =====
-- C strings as lists of bytes, and what the programs use of the C library on them.
pub mod Laws
use Prim.Native.String.{String}
use Prim.Native.Char.{code}
use everyday_coding.Base.{
  ℕ, zero, suc, ◌+◌, ◌-◌, ◌*◌, ◌^◌, Bool, true, false, ◌&&◌, ◌||◌, List, [], ◌∷◌, leb, ◌==◌,
  if◌then◌else◌,
}
use everyday_coding.Base.Int.{ℤ, pos, sub_ℕ, to_int}

abbrev pub Str : Type 0
Str = List ℕ

-- the bytes of a literal
abbrev pub bytes : String → Str
bytes String.[] = []
bytes (String.◌∷◌ c s) = code c ∷ bytes s

abbrev pub same_bytes : Str → Str → Bool
same_bytes [] [] = true
same_bytes (x ∷ xs) (y ∷ ys) = (x == y) && same_bytes xs ys
same_bytes _ _ = false

-- The string that a buffer holds: the bytes before the first NUL.
abbrev pub up_to_nul : Str → Str
up_to_nul [] = []
up_to_nul (c ∷ s) = let rest = up_to_nul s in if c == 0 then [] else c ∷ rest

-- The bytes that fgets takes, with the places left: up to the end of a line, that included.
abbrev pub line_bytes : ℕ → Str → Str
line_bytes zero s = []
line_bytes (suc n) [] = []
line_bytes (suc n) (c ∷ s) = let rest = line_bytes n s in c ∷ (if c == b'\n' then [] else rest)

-- The string in the buffer of `size` bytes after fgets. At the end of the stream fgets leaves the
-- buffer with what it held.
abbrev pub fgets : (held : Str) → (size : ℕ) → (stream : Str) → Str
fgets held size [] = held
fgets held size (c ∷ s) = up_to_nul (line_bytes (size - 1) (c ∷ s))

abbrev pub is_empty : Str → Bool
is_empty [] = true
is_empty _ = false

-- Whether the last byte of a string is the end of a line.
abbrev pub ends_line : Str → Bool
ends_line [] = false
ends_line (c ∷ s) = let rest = ends_line s in if is_empty s then c == b'\n' else rest

abbrev drop_last : Str → Str
drop_last [] = []
drop_last (c ∷ s) = let rest = drop_last s in if is_empty s then [] else c ∷ rest

-- if (buffer[len - 1] == '\n') buffer[len - 1] = '\0';
-- For the empty string this looks at the byte in front of the buffer, which is not of the string.
abbrev pub cut_line : Str → Str
cut_line s = if ends_line s then drop_last s else s

abbrev pub is_digit : ℕ → Bool
is_digit c = leb b'0' c && leb c b'9'

abbrev is_space : ℕ → Bool
is_space c = (c == b' ') || (leb 9 c && leb c 13)

-- the number of the digits at the front
abbrev pub digits_value : ℕ → Str → ℕ
digits_value v [] = v
digits_value v (c ∷ s) =
    let next = digits_value (v * 10 + (c - b'0')) s in if is_digit c then next else v

-- strtol stays within 64 bits, and atoi is its conversion to `int`.
abbrev pub clamp : ℕ → ℕ → ℕ
clamp limit v = if leb v limit then v else limit

abbrev signed_value : Str → ℤ
signed_value [] = pos 0
signed_value (c ∷ s) =
    if c == b'-'
    then sub_ℕ 0 (clamp (2 ^ 63) (digits_value 0 s))
    else pos (clamp (2 ^ 63 - 1) (if c == b'+' then digits_value 0 s else digits_value 0 (c ∷ s)))

abbrev skip_spaces : Str → Str
skip_spaces [] = []
skip_spaces (c ∷ s) = let rest = skip_spaces s in if is_space c then rest else c ∷ s

unfoldable pub atoi : Str → ℤ
atoi s = to_int (signed_value (skip_spaces s))

abbrev pub take {ℓ} : {A : Type ℓ} → ℕ → List A → List A
take zero xs = []
take (suc n) [] = []
take (suc n) (x ∷ xs) = x ∷ take n xs

abbrev pub drop {ℓ} : {A : Type ℓ} → ℕ → List A → List A
drop zero xs = xs
drop (suc n) [] = []
drop (suc n) (x ∷ xs) = drop n xs

abbrev pub starts_with_dot : Str → Bool
starts_with_dot [] = false
starts_with_dot (c ∷ s) = c == b'.'
