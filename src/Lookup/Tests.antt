-- ===== src/Lookup/Tests.antt =====
-- map_insert_look.cpp on concrete lines and addresses.
use everyday_coding.Base.{ℕ, ◌≡◌, inl, refl, [], ◌∷◌, ◌==◌, if◌then◌else◌, arith}
use everyday_coding.CString.{Str, bytes}
use everyday_coding.Lookup.{
  Addresses, Input, getline, insert, put, insert_rows, filled, find, erase, look, drop_at, row,
  main,
}
use everyday_coding.Lookup.Insert.{IsApart, in_order}
use everyday_coding.Lookup.Erase.{DropsFirst, without_addr}
use everyday_coding.Lookup.Shown.{typed, main-Shown}

-- Literals below the stack, and equal ones at one address.
abbrev places : Addresses
places = record { keys = 1000; values = 2000; addr = 16; addr_found = 16; china = 32 }

abbrev text : ℕ → Str
text p =
    if p == 16
    then bytes "addr"
    else if p == 1000
    then bytes "img"
    else if p == 1020
    then bytes "system"
    else if p == 1040
    then bytes "ip"
    else if p == 2000
    then bytes "d:/a.img"
    else if p == 2020
    then bytes "win7"
    else if p == 2040
    then bytes "193.68.6.3"
    else bytes ""

places-IsApart : IsApart places
places-IsApart = record { set = inl (omega arith); found = inl (omega arith) }

abbrev answers : Input
answers = typed text places (bytes "ip") (bytes "ip") (bytes "win7") []

-- The second line names "ip" and the third the value of "system", which comes first: only that one
-- is erased.
one_erased : (main text places answers).left ≡ row places 0 ∷ row places 2 ∷ []
unfolding main getline filled insert_rows insert put find erase drop_at look
one_erased = refl

-- After a line of 20 bytes the other two are empty, and nothing is erased.
too_long :
    (main text places
      (typed text places (bytes "aaaaaaaaaaaaaaaaaaaa") (bytes "ip") (bytes "win7") [])).left
    ≡ row places 0 ∷ row places 1 ∷ row places 2 ∷ []
unfolding main getline filled insert_rows insert put find erase drop_at look
too_long = refl

main-Shown_example :
    ((main text places answers).listed ≡ in_order places)
    × DropsFirst text
        (bytes "ip")
        (bytes "win7")
        (without_addr places)
        (main text places answers).dropped
        (main text places answers).left
main-Shown_example =
    main-Shown text places (bytes "ip") (bytes "ip") (bytes "win7") [] places-IsApart
      (record { short = omega arith; whole = refl; clean = refl })
      (record { short = omega arith; whole = refl; clean = refl })
      (record { short = omega arith; whole = refl; clean = refl })
