-- ===== src/Lookup/Shown.antt =====
-- What `main` prints.
use everyday_coding.Base.{ℕ, ◌≡◌, refl, true, ◌∷◌, ◌++◌}
use everyday_coding.CString.{Str}
use everyday_coding.Lookup.{
  Input, Addresses, Printed, filled, find, look, drop_at, erase_at, erase_by, getline, main,
}
use everyday_coding.Lookup.Lines.{IsLine, getline-line}
use everyday_coding.Lookup.Insert.{IsApart, in_order, filled-in_order}
use everyday_coding.Lookup.Erase.{without_addr, erase_at-find, DropsFirst, drop_at-DropsFirst}

module _ (text : ℕ → Str) (a : Addresses) (key1 drop_key drop_value rest : Str) where
  -- The input in which the three lines are typed.
  abbrev pub typed : Input
  typed = record {
    good = true;
    rest = key1 ++ b'\n' ∷ (drop_key ++ b'\n' ∷ (drop_value ++ b'\n' ∷ rest));
  }

  abbrev shown : Str → Str → Str → Printed
  shown key1 drop_key drop_value =
      let mp = erase_at (find a.addr_found (filled a)) (filled a) in
      record {
        listed = filled a;
        looked_up = look text key1 (filled a);
        found = find a.addr_found (filled a);
        dropped = drop_at text drop_key drop_value mp;
        left = erase_by (drop_at text drop_key drop_value mp) mp;
      }

  main-shown :
      (cin : Input) (line1 line2 line3 : Str × Input)
      → getline cin ≡ line1
      → getline line1.1 ≡ line2
      → getline line2.1 ≡ line3
      → main text a cin ≡ shown line1.0 line2.0 line3.0
  unfolding main
  main-shown cin line1 line2 line3 e1 e2 e3 = rw (main, e1, e2, e3) refl

  -- Where the literals do not stand in the array `key`, and three lines of at most 19 bytes are typed,
  -- `main` lists the four elements in the order of the addresses of their keys; takes out the one with
  -- the key "addr" if the two literals of this text are at the same address; of what is left, the
  -- first element whose key is the second line or whose value is the third; and lists the others.
  pub main-Shown :
      IsApart a
      → IsLine key1
      → IsLine drop_key
      → IsLine drop_value
      → ((main text a typed).listed ≡ in_order a)
        × DropsFirst text drop_key drop_value
            (without_addr a)
            (main text a typed).dropped
            (main text a typed).left
  main-Shown apart l1 l2 l3 =
      let rest2 = drop_value ++ b'\n' ∷ rest in
      let rest1 = drop_key ++ b'\n' ∷ rest2 in
      let run =
        main-shown typed (key1, record { good = true; rest = rest1 })
          (drop_key, record { good = true; rest = rest2 })
          (drop_value, record { good = true; rest = rest }) (getline-line key1 rest1 l1)
          (getline-line drop_key rest2 l2) (getline-line drop_value rest l3) in
      rw (run, filled-in_order a apart, erase_at-find a apart)
        (refl, drop_at-DropsFirst text drop_key drop_value (without_addr a))
