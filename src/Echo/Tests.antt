-- ===== src/Echo/Tests.antt =====
-- One exchange.
use everyday_coding.Base.{◌≤◌, ◌≡◌, refl, true, some, arith, [], ◌∷◌, length}
use everyday_coding.Base.Int.{pos}
use everyday_coding.CString.{Str, bytes}
use everyday_coding.Echo.{served, exchanged, client_main, server_main}
use everyday_coding.Echo.Exchange.{line, exchanged-line}

abbrev input : Str
input = bytes "hello\nworld\n"

hello : (exchanged input).printed ≡ bytes "hello\n" ∷ []
unfolding client_main server_main
hello = refl

exchanged-line_example :
    (exchanged input ≡ record {
      status = some (pos 0);
      printed = line input ∷ [];
      written = line input;
      calls_unlink = true;
    })
    × ((served input).status ≡ some (pos 0))
    × ((served input).printed ≡ line input ∷ line input ∷ [])
    × ((served input).calls_unlink ≡ true)
    × (length (line input) ≤ 99)
exchanged-line_example = exchanged-line input (omega arith)
