-- ===== src/Lookup.antt =====
-- CPlusPlusThings/practical_exercises/map_insert_look.cpp. A `map<const char*, const char*>` compares
-- its keys as pointers, and the loops of the program compare the strings that they point to.
mod Lines
mod Insert
mod Erase
pub mod Shown
mod Tests
use everyday_coding.Base.{
  ℕ, zero, suc, ◌+◌, ◌*◌, Bool, true, false, Option, none, some, List, [], ◌∷◌, ltb, ◌==◌,
  if◌then◌else◌,
}
use everyday_coding.CString.{Str, same_bytes, up_to_nul}

-- std::pair<const char*, const char*>
pub record Pair : Type 0 where
  pub first : ℕ
  pub second : ℕ

-- cin, and whether its state is good.
pub record Input : Type 0 where
  pub good : Bool
  pub rest : Str

-- What getline takes, with the places left for bytes of the line: the end of the line too, which it
-- does not store; a line that is too long and the end of the input spoil the state.
abbrev pub line_taken : ℕ → Str → Str × Input
line_taken n [] = ([], record { good = false; rest = [] })
line_taken zero (c ∷ s) =
    if c == b'\n'
    then ([], record { good = true; rest = s })
    else ([], record { good = false; rest = c ∷ s })
line_taken (suc n) (c ∷ s) =
    let (line, after) = line_taken n s in
    if c == b'\n' then ([], record { good = true; rest = s }) else (c ∷ line, after)

-- cin.getline(line, 20); the string in `line`, and the input after it.
unfoldable pub getline : Input → Str × Input
getline cin =
    let (line, after) = line_taken 19 cin.rest in
    if cin.good then (up_to_nul line, after) else ([], cin)

-- mp.insert(e)
unfoldable pub insert : Pair → List Pair → List Pair
insert e [] = e ∷ []
insert e (x ∷ mp) =
    let rest = insert e mp in
    if ltb e.first x.first then e ∷ x ∷ mp else if ltb x.first e.first then x ∷ rest else x ∷ mp

-- mp[e.first] = e.second
unfoldable pub put : Pair → List Pair → List Pair
put e [] = e ∷ []
put e (x ∷ mp) =
    let rest = put e mp in
    if ltb e.first x.first then e ∷ x ∷ mp else if ltb x.first e.first then x ∷ rest else e ∷ mp

-- An iterator is a position, and `none` is end().
abbrev pub step : Option ℕ → Option ℕ
step none = none
step (some i) = some (suc i)

-- mp.find(key)
unfoldable pub find : ℕ → List Pair → Option ℕ
find key [] = none
find key (x ∷ mp) = let rest = find key mp in if key == x.first then some 0 else step rest

-- mp.erase(iter)
unfoldable pub erase : ℕ → List Pair → List Pair
erase i [] = []
erase zero (x ∷ mp) = mp
erase (suc i) (x ∷ mp) = x ∷ erase i mp

-- Which of the two tests of the loop that erases has succeeded.
pub data By : Type 0 where
  by_key by_value : By

abbrev pub step_by : Option (By × ℕ) → Option (By × ℕ)
step_by none = none
step_by (some (by, i)) = some (by, suc i)

-- The strings that the pointers point to.
module _ (text : ℕ → Str) where
  -- The loop that prints the elements whose key is the line.
  unfoldable pub look : Str → List Pair → List Pair
  look line [] = []
  look line (x ∷ mp) =
      let rest = look line mp in if same_bytes (text x.first) line then x ∷ rest else rest

  -- Where the loop that erases an element breaks off.
  unfoldable pub drop_at : (drop_key drop_value : Str) → List Pair → Option (By × ℕ)
  drop_at drop_key drop_value [] = none
  drop_at drop_key drop_value (x ∷ mp) =
      let rest = drop_at drop_key drop_value mp in
      if same_bytes (text x.first) drop_key
      then some (by_key, 0)
      else if same_bytes (text x.second) drop_value
      then some (by_value, 0)
      else step_by rest

-- Where the arrays `key` and `value` and the literals stand: "addr" in `mp["addr"]` and in
-- `mp.find("addr")`, which the compiler may place at one address or at two, and the other one.
pub record Addresses : Type 0 where
  pub keys : ℕ
  pub values : ℕ
  pub addr : ℕ
  pub addr_found : ℕ
  pub china : ℕ

-- make_pair(key[i], value[i])
abbrev pub row : Addresses → ℕ → Pair
row a i = record { first = a.keys + 20 * i; second = a.values + 20 * i }

-- for(int i = …; i < 2; i++), with the rounds left
unfoldable pub insert_rows : Addresses → (rounds i : ℕ) → List Pair → List Pair
insert_rows a zero i mp = mp
insert_rows a (suc rounds) i mp = insert_rows a rounds (suc i) (insert (row a i) mp)

abbrev pub addr_pair : Addresses → Pair
addr_pair a = record { first = a.addr; second = a.china }

unfoldable pub filled : Addresses → List Pair
filled a = put (addr_pair a) (insert (row a 2) (insert_rows a 2 0 []))

abbrev pub erase_at : Option ℕ → List Pair → List Pair
erase_at none mp = mp
erase_at (some i) mp = erase i mp

abbrev pub erase_by : Option (By × ℕ) → List Pair → List Pair
erase_by none mp = mp
erase_by (some (by, i)) mp = erase i mp

-- What `main` prints: the elements, those with the key asked for, the one found by its key, the one
-- that the last loop finds, and the elements left.
pub record Printed : Type 0 where
  pub listed : List Pair
  pub looked_up : List Pair
  pub found : Option ℕ
  pub dropped : Option (By × ℕ)
  pub left : List Pair

unfoldable pub main : (ℕ → Str) → Addresses → Input → Printed
main text a cin =
    let mp = filled a in
    let (key1, cin1) = getline cin in
    let found = find a.addr_found mp in
    let mp' = erase_at found mp in
    let (drop_key, cin2) = getline cin1 in
    let (drop_value, cin3) = getline cin2 in
    let dropped = drop_at text drop_key drop_value mp' in
    record {
      listed = mp;
      looked_up = look text key1 mp;
      found = found;
      dropped = dropped;
      left = erase_by dropped mp';
    }
