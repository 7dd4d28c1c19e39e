-- ===== src/Getdents/Tests.antt =====
-- The listing of a directory with one file.
use everyday_coding.Base.{ℕ, zero, suc, ◌≡◌, refl, true, Option, some, List, [], ◌∷◌, arith}
use everyday_coding.CString.{Str, bytes}
use everyday_coding.Getdents.{main}
use everyday_coding.Getdents.Records.{Dirent, encode_all, listing, main-listing}

-- the directory itself and a file
abbrev this : Dirent
this = record { ino = 77; off = 12; type = 4; name = bytes "."; padding = 0 ∷ 0 ∷ 0 ∷ [] }

abbrev file : Dirent
file = record { ino = 78; off = 24; type = 8; name = bytes "a.c"; padding = 0 ∷ [] }

abbrev one_call : Str → ℕ → Option Str
one_call path zero = some (encode_all (this ∷ file ∷ []))
one_call path (suc i) = some []

abbrev batches : List (Dirent × List Dirent)
batches = (this, file ∷ []) ∷ []

main-listing_example :
    main (λ path. true) one_call 2 (bytes "a.out" ∷ []) ≡ some (listing batches, 0)
main-listing_example =
    main-listing (λ path. true) one_call 2 (bytes "a.out" ∷ []) batches refl
      (
        refl,
        (
          (omega arith, omega arith, omega arith, refl),
          ((omega arith, omega arith, omega arith, refl), tt),
        ),
        refl,
      )
      (omega arith)
