-- ===== src/Lookup/Insert.antt =====
-- The map that `main` fills.
use everyday_coding.Base.{◌+◌, ◌≤◌, ◌<◌, ◌≡◌, ◌⊎◌, List, [], ◌∷◌, ltb, if◌then◌else◌, arith}
use everyday_coding.Lookup.{Pair, Addresses, row, addr_pair, insert, put, insert_rows, filled}

-- The literals do not stand in the array `key`.
pub record IsApart (a : Addresses) : Type 0 where
  pub set : (a.addr < a.keys) ⊎ (a.keys + 60 ≤ a.addr)
  pub found : (a.addr_found < a.keys) ⊎ (a.keys + 60 ≤ a.addr_found)

abbrev pub rows : Addresses → List Pair
rows a = row a 0 ∷ row a 1 ∷ row a 2 ∷ []

-- The order of a map is that of the addresses.
abbrev pub in_order : Addresses → List Pair
in_order a =
    if ltb a.addr a.keys
    then addr_pair a ∷ rows a
    else row a 0 ∷ row a 1 ∷ row a 2 ∷ addr_pair a ∷ []

pub filled-in_order : (a : Addresses) → IsApart a → filled a ≡ in_order a
unfolding filled insert_rows insert put
filled-in_order a apart = let h = apart.set in ground arith
