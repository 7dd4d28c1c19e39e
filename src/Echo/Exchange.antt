-- ===== src/Echo/Exchange.antt =====
-- What comes back from the server.
use everyday_coding.Base.{
  ℕ, suc, none, some, ltb, ◌<◌, ◌-◌, ◌≤◌, ◌≡◌, refl, ap, ◌∙◌, true, [], ◌∷◌, ◌++◌, ◌==◌, length,
  arith,
}
use everyday_coding.Base.Int.{pos}
use everyday_coding.CString.{Str, fgets, up_to_nul}
use everyday_coding.CString.Laws.{up_to_nul-append, length-fgets, has-fgets, take-take, take-all}
use everyday_coding.Echo.{msg_max_length, zeros, server_main, client_main, served, exchanged}

-- The line that the client has read.
abbrev pub line : Str → Str
line stdin = fgets [] msg_max_length stdin

positive : (n : ℕ) → 0 < n → ltb 0 n ≡ true
positive n h = ground arith

-- Where the client has read a line that is not empty and every call but those of unlink succeeds,
-- both programs return 0 and call unlink on the path of the socket; the client sends the line, of at
-- most 99 bytes, and prints it as it comes back, and the server has printed it too.
pub exchanged-line :
    (stdin : Str)
    → 0 < length (line stdin)
    → (exchanged stdin ≡ record {
      status = some (pos 0);
      printed = line stdin ∷ [];
      written = line stdin;
      calls_unlink = true;
    })
      × ((served stdin).status ≡ some (pos 0))
      × ((served stdin).printed ≡ line stdin ∷ line stdin ∷ [])
      × ((served stdin).calls_unlink ≡ true)
      × (length (line stdin) ≤ 99)
unfolding client_main server_main
exchanged-line stdin some_line =
    let l = line stdin in
    let short : length l ≤ 99 = length-fgets msg_max_length stdin in
    let clean = has-fgets msg_max_length stdin in
    let whole = take-all l msg_max_length (omega arith) in
    let back = take-take l (zeros (101 - length l)) msg_max_length (omega arith) in
    let rest : 101 - length l ≡ suc (100 - length l) = omega arith in
    let shown : up_to_nul (l ++ zeros (101 - length l)) ≡ l =
      ap (λ n. up_to_nul (l ++ zeros n)) rest ∙ up_to_nul-append l (zeros (100 - length l)) clean in
    let waits = positive (length l) some_line in
    let same : (length l == length l) ≡ true = ground arith in
    rw (waits, whole, back, shown, up_to_nul-append l [] clean, same)
      (refl, refl, refl, refl, short)

empty_list : (xs : Str) → length xs ≡ 0 → xs ≡ []
empty_list [] e = refl
empty_list (x ∷ xs) e = absurd (omega arith)

-- Where the line is empty and every call but the server's write succeeds, the client returns 0 and
-- the server is ended by its write.
served-empty :
    (stdin : Str)
    → length (line stdin) ≡ 0
    → ((exchanged stdin).status ≡ some (pos 0)) × ((served stdin).status ≡ none)
unfolding client_main server_main
served-empty stdin empty =
    let none_read : line stdin ≡ [] = empty_list (line stdin) empty in rw none_read (refl, refl)
