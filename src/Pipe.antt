-- ===== src/Pipe.antt =====
-- named_pipe/Server.cpp, which writes to a named pipe, and named_pipe/Client.cpp, which reads from it
-- without waiting, as steps of the two processes that interleave in any order. In the first state
-- the client has opened the pipe: its open does not wait, and that of the server waits for it.
pub mod Counts
pub mod Finish
mod Tests
use everyday_coding.Base.{
  ℕ, suc, zero, ◌+◌, ◌*◌, ◌≤◌, ◌<◌, ◌≡◌, Bool, true, false, not, ◌&&◌, Option, none, some, List, [],
  ◌∷◌, ◌++◌, ltb, if◌then◌else◌, length,
}
use everyday_coding.Base.Int.{ℤ, pos, negsuc, ◌+ℤ◌, ltb_ℤ}
use everyday_coding.CString.{Str, bytes}

-- BUF_SIZE of both programs
abbrev pub buf_size : ℕ
buf_size = 1024

-- MAX_SIZE of the server
abbrev pub max_size : ℕ
max_size = 1024 * 10

-- the byte `i` of a buffer that begins with the text: zeros follow it
abbrev pub byte_at : Str → ℕ → ℕ
byte_at [] i = 0
byte_at (c ∷ s) zero = c
byte_at (c ∷ s) (suc i) = byte_at s i

-- the bytes of the server's buffer from `i` on
abbrev pub from_buffer : (i size : ℕ) → Str
from_buffer i zero = []
from_buffer i (suc size) = byte_at (bytes "haolipeng") i ∷ from_buffer (i + 1) size

-- The server waits in open, is in its loop with `bytes_send`, has returned, or is killed by a write
-- to a pipe that nobody reads.
pub data Server : Type 0 where
  opening : Server
  sending : (bytes_send : ℕ) → Server
  returned : (status : ℤ) → Server
  killed : Server

-- The client is in its loop with `bytes_read`, or has printed it; `failed` is a return after open.
pub data Client : Type 0 where
  reading : (bytes_read : ℤ) → Client
  finished : (bytes_read : ℤ) → Client
  failed : (status : ℤ) → Client

-- The server up to its open: whether the pipe is there, and whether mkfifo can make it.
abbrev pub access_pipe : (there made : Bool) → Server
access_pipe there made = if not there && not made then returned (negsuc 0) else opening

-- What open answers.
abbrev pub server_opened : Bool → Server
server_opened false = returned (negsuc 0)
server_opened true = sending 0

abbrev pub client_opened : Bool → Client
client_opened false = failed (negsuc 0)
client_opened true = reading (pos 0)

-- A round of the server's loop by what write returns; `none` is -1.
abbrev pub server_wrote : Option ℕ → (bytes_send : ℕ) → Server
server_wrote none bytes_send = sending bytes_send
server_wrote (some res) bytes_send = sending (bytes_send + res)

-- the test of the server's loop
abbrev pub server_goes_on : (bytes_send : ℕ) → Bool
server_goes_on bytes_send = ltb bytes_send max_size

-- a round of the client's loop by what read returns
abbrev pub client_read : (res bytes_read : ℤ) → Client
client_read res bytes_read =
    if ltb_ℤ (pos 0) res then reading (bytes_read +ℤ res) else finished (bytes_read +ℤ res)

-- Both processes, what is in the pipe, and all that has been written to it and read from it.
pub record System : Type 0 where
  pub server : Server
  pub client : Client
  pub pipe : Str
  pub sent : Str
  pub received : Str

abbrev pub init : System
init = record { server = opening; client = client_opened true; pipe = []; sent = []; received = [] }

abbrev pub writes_on : Server → Bool
writes_on (sending bytes_send) = true
writes_on _ = false

pub data Step (s : System) : System → Type 0 where
  opens :
      {b : ℤ}
      → s.server ≡ opening
      → s.client ≡ reading b
      → Step s (record s { server = server_opened true })
  writes :
      {n : ℕ} {b : ℤ} (size : ℕ)
      → s.server ≡ sending n
      → server_goes_on n ≡ true
      → s.client ≡ reading b
      → size ≤ buf_size
      → Step s (record s {
        server = server_wrote (some size) n;
        pipe = s.pipe ++ from_buffer 0 size;
        sent = s.sent ++ from_buffer 0 size;
      })
  write_fails :
      {n : ℕ}
      → s.server ≡ sending n
      → server_goes_on n ≡ true
      → Step s (record s { server = server_wrote none n })
  write_kills :
      {n : ℕ} {b : ℤ}
      → s.server ≡ sending n
      → server_goes_on n ≡ true
      → s.client ≡ finished b
      → Step s (record s { server = killed })
  closes :
      {n : ℕ}
      → s.server ≡ sending n
      → server_goes_on n ≡ false
      → Step s (record s { server = returned (pos 0) })
  reads :
      {b : ℤ} (c : ℕ) (front back : Str)
      → s.client ≡ reading b
      → s.pipe ≡ (c ∷ front) ++ back
      → length (c ∷ front) ≤ buf_size
      → Step s (record s {
        client = client_read (pos (length (c ∷ front))) b;
        pipe = back;
        received = s.received ++ (c ∷ front);
      })
  read_ends :
      {b : ℤ}
      → s.client ≡ reading b
      → s.pipe ≡ []
      → writes_on s.server ≡ false
      → Step s (record s { client = client_read (pos 0) b })
  read_fails :
      {b : ℤ}
      → s.client ≡ reading b
      → s.pipe ≡ []
      → writes_on s.server ≡ true
      → Step s (record s { client = client_read (negsuc 0) b })

pub data Steps (s : System) : System → Type 0 where
  here : Steps s s
  next : {t u : System} → Steps s t → Step t u → Steps s u
