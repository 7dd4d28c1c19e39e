-- ===== src/Pipe/Tests.antt =====
-- The pipe after the client has read once too early.
use mathlib.Core.Path.{subst}
use everyday_coding.Base.{◌≢◌, refl, [], arith}
use everyday_coding.Base.Int.{pos, negsuc, ◌+ℤ◌}
use everyday_coding.Pipe.{
  System, Server, sending, killed, reading, finished, from_buffer, init, Steps, opens, writes,
  read_fails, here, next,
}
use everyday_coding.Pipe.Counts.{Inv, Steps-Inv}
use everyday_coding.Pipe.Finish.{WholeSteps, Ended, can_finish}

-- The server has written 9 bytes.
abbrev wrote : System
wrote = record {
  server = sending 9;
  client = reading (pos 0);
  pipe = from_buffer 0 9;
  sent = from_buffer 0 9;
  received = [];
}

wrote-Steps : Steps init wrote
wrote-Steps = next (next here (opens refl refl)) (writes 9 refl refl refl (omega arith))

-- The server has opened the pipe, and the client reads before anything is there.
abbrev hasty : System
hasty = record init { server = sending 0; client = finished (negsuc 0) }

hasty-Steps : Steps init hasty
unfolding ◌+ℤ◌
hasty-Steps = next (next here (opens refl refl)) (read_fails refl refl refl)

Steps-Inv_example : Inv hasty
Steps-Inv_example = Steps-Inv hasty hasty-Steps

abbrev IsSending : Server → Type 0
IsSending (sending n) = Unit {0}
IsSending _ = ⊥

writes_on_here : wrote.server ≢ killed
writes_on_here e = subst IsSending e tt

can_finish_example : (t : System) × WholeSteps wrote t × Ended t
can_finish_example = can_finish wrote wrote-Steps (pos 0) refl writes_on_here
