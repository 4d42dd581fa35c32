-- ===== src/Tests/Connections.antt =====
-- Tests of the state machine of a connection.
use byo_redis.Prelude.{refl, true, false, [], ◌∷◌, arith}
use byo_redis.Prelude.Run.{Returns}
use byo_redis.Buffer.{Buffer}
use byo_redis.Connection.{PolledConn, wrote, handle_write}
use byo_redis.Connection.Writing.{IsReady, Written, handle_write-Written}

abbrev blank : Buffer
blank = record { buf = []; readable_begin = 0; writable_begin = 0; placeholder_stack = [] }

-- two bytes wait in a buffer of three
abbrev two_bytes : Buffer
two_bytes = record {
  buf = 7 ∷ 8 ∷ 0 ∷ [];
  readable_begin = 0;
  writable_begin = 2;
  placeholder_stack = [];
}

abbrev writing : PolledConn
writing = record {
  conn = record { want_close = false; incoming = blank; outgoing = two_bytes };
  want_read = false;
  want_write = true;
  registered = (true, false);
}

writing-IsReady : IsReady writing
writing-IsReady = record {
  valid = record { ordered = omega arith; fits = omega arith; marked = tt };
  idle = refl;
  reads = refl;
  writes = refl;
}

handle_write-Written_example : Returns (handle_write (wrote 2) writing) (Written (wrote 2) writing)
handle_write-Written_example = handle_write-Written (wrote 2) writing writing-IsReady (omega arith)
