-- ===== src/Echo.antt =====
-- unix_client_server/: unixClient.cpp sends a line to unixServer.cpp over a stream socket and prints
-- what comes back. What the system calls answer are arguments; `none` is -1.
pub mod Exchange
mod Tests
use everyday_coding.Base.{
  ℕ, zero, suc, ◌+◌, ◌-◌, Bool, true, false, ◌&&◌, Option, none, some, List, [], ◌∷◌, ◌++◌, ltb,
  ◌==◌, if◌then◌else◌, length,
}
use everyday_coding.Base.Int.{ℤ, pos, negsuc}
use everyday_coding.CString.{Str, fgets, up_to_nul, take}

-- MSG_MAX_LENGTH
abbrev pub msg_max_length : ℕ
msg_max_length = 100

abbrev pub zeros : ℕ → Str
zeros zero = []
zeros (suc n) = 0 ∷ zeros n

-- What a program has done: its status, or `none` where the signal of a write to a closed connection
-- has ended it, the messages it has printed from its buffer, what it has written to the socket, and
-- whether it has called unlink on the path of the socket. Neither program looks at what unlink
-- returns, and both have the same path.
pub record Run : Type 0 where
  pub status : Option ℤ
  pub printed : List Str
  pub written : Str
  pub calls_unlink : Bool

-- return -1 before anything is sent
abbrev pub gives_up : Run
gives_up = record { status = some (negsuc 0); printed = []; written = []; calls_unlink = false }

-- `buf` of the server after read: what was read stands before the zeros.
abbrev pub server_buffer : Option Str → Str
server_buffer none = zeros (msg_max_length + 1)
server_buffer (some message) = message ++ zeros (msg_max_length + 1 - length message)

-- The server from accept on, by what read gives and whether the client still has the connection
-- open when the server writes. It does not look at what write returns.
abbrev pub serve : (waits : Bool) → Option Str → Run
serve waits message =
    let buf = server_buffer message in
    if waits
    then record {
      status = some (pos 0);
      printed = up_to_nul buf ∷ up_to_nul buf ∷ [];
      written = take msg_max_length buf;
      calls_unlink = true;
    }
    else record { status = none; printed = up_to_nul buf ∷ []; written = []; calls_unlink = false }

-- The arguments are whether socket, bind, listen and accept succeed, whether the client has the
-- connection open when the server writes, and what read gives.
unfoldable pub server_main : (made bound listens accepted waits : Bool) → Option Str → Run
server_main made bound listens accepted waits message =
    if made
    then (if bound
        then (if listens then (if accepted then serve waits message else gives_up) else gives_up)
        else gives_up)
    else gives_up

abbrev pub same_count : ℕ → Option ℕ → Bool
same_count len none = false
same_count len (some n) = n == len

-- The client after its write, by what read gives. The message stands before the NUL that ended the
-- line.
abbrev pub client_reads : (line : Str) → Option Str → Run
client_reads line none = record gives_up { written = line }
client_reads line (some message) =
    if length message == length line
    then record {
      status = some (pos 0);
      printed = up_to_nul (message ++ 0 ∷ []) ∷ [];
      written = line;
      calls_unlink = true;
    }
    else record gives_up { written = line }

-- The arguments are whether socket and connect succeed, the standard input, what write returns, and
-- what a read of some bytes gives.
unfoldable pub client_main :
    (made connected : Bool)
    → (stdin : Str) → (write : Str → Option ℕ) → (read : ℕ → Option Str) → Run
client_main made connected stdin write read =
    let buf = fgets [] msg_max_length stdin in
    let len = length buf in
    if made
    then (if connected
        then (if same_count len (write buf)
            then client_reads buf (read len)
            else record gives_up { written = buf })
        else gives_up)
    else gives_up

-- Both programs on one connection on which every call succeeds: a write sends all its bytes, and a read
-- takes what is there, as far as it was asked for. The server has read all that the client has
-- sent before it answers, and the client waits for the answer, unless its line is empty: then it
-- sends nothing, asks for no bytes and ends, and it is the end of the connection that the server reads.
abbrev pub served : (stdin : Str) → Run
served stdin =
    let line = fgets [] msg_max_length stdin in
    server_main true true true true (ltb 0 (length line)) (some (take msg_max_length line))

abbrev pub exchanged : (stdin : Str) → Run
exchanged stdin =
    client_main true true stdin (λ s. some (length s)) (λ n. some (take n (served stdin).written))
