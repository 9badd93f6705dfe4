-- ===== src/Tests/Wire.antt =====
-- Concrete runs: what the client of one connection hears.
use darkhttpd.Conn.{reply_generated}
use darkhttpd.Poll.{Step}
use darkhttpd.Poll.Current.{bytes_of}
use darkhttpd.Server.Life.{first_step, accepted, so_far}
use darkhttpd.Server.Transcript.{IsTranscript, Heard-IsTranscript}
use darkhttpd.Tests.{site, site-Stable, none_yet, slow_io, slow_io-IsHonest}

-- A request arrives at once, and two bytes of its answer are sent.
abbrev greeted : Step
greeted = first_step site 100 none_yet reply_generated 5 1 slow_io

Heard-IsTranscript_example : IsTranscript site (bytes_of slow_io.recv) greeted.wire
Heard-IsTranscript_example =
    Heard-IsTranscript {e = site} site-Stable
      (so_far (accepted 100 none_yet reply_generated 5 1 slow_io slow_io-IsHonest))
