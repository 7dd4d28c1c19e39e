-- ===== src/Getdents/Bytes.antt =====
-- Numbers as little-endian bytes.
use everyday_coding.Base.{ℕ, zero, suc, ◌/◌, ◌%◌, ◌<◌, ◌^◌, ◌≡◌, [], ◌∷◌, arith}
use everyday_coding.CString.{Str}
use everyday_coding.Getdents.{le}

abbrev pub le_bytes : (width n : ℕ) → Str
le_bytes zero n = []
le_bytes (suc width) n = n % 256 ∷ le_bytes width (n / 256)

-- nothing is left of the number behind its bytes
abbrev Fits : (width n : ℕ) → Type 0
Fits zero n = n ≡ 0
Fits (suc width) n = Fits width (n / 256)

le-le_bytes : (width n : ℕ) → Fits width n → le (le_bytes width n) ≡ n
le-le_bytes zero n fits = omega (arith, fits)
le-le_bytes (suc width) n fits = omega (arith, le-le_bytes width (n / 256) fits)

pub le-le_bytes_8 : (n : ℕ) → n < 2 ^ 64 → le (le_bytes 8 n) ≡ n
le-le_bytes_8 n lt = le-le_bytes 8 n (omega arith)

pub le-le_bytes_2 : (n : ℕ) → n < 2 ^ 16 → le (le_bytes 2 n) ≡ n
le-le_bytes_2 n lt = le-le_bytes 2 n (omega arith)
