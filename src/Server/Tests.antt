-- ===== src/Server/Tests.antt =====
-- The theorems of the connection limit at a limiter for one connection.
use skywalking_satellite.Base.{[], ◌∷◌, refl, false, arith, []}
use skywalking_satellite.Server.{
  Routines, add_active, Step, check, accept, done, more, Limited, Steps-Limited, may_count,
}

abbrev idle : Routines
idle = record {
  limiter = record { connection_count = 1; active_connection = 0 };
  checked = 0;
  over = 0;
  connections = [];
}

abbrev ready_one : Routines
ready_one = record idle { checked = 1 }

abbrev open_one : Routines
open_one = record idle {
  limiter = record { connection_count = 1; active_connection = 1 };
  connections = (record { notified = false }) ∷ [];
}

first_check : Step idle ready_one
unfolding may_count
first_check = check false refl

first_accept : Step ready_one open_one
unfolding add_active
first_accept = accept (omega arith) refl

Steps-Limited_example : Limited 1 open_one
Steps-Limited_example =
    Steps-Limited 1 idle open_one refl refl refl refl (more (more done first_check) first_accept)
