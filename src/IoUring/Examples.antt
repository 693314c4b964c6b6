-- ===== src/IoUring/Examples.antt =====
-- One read, and two writes.
use asco.Prelude.{◌≡◌, refl, [], ◌∷◌}
use asco.File.{negsuc}
use asco.IoUring.{submit}
use asco.IoUring.Request.{Read, Write, read_request_id}
use asco.IoUring.Pending.{idle, Calls, submits, none_yet, and_then, Served, submitted-Served}
use asco.Prelude.{ℕ_discrete}

abbrev some_read : Read
some_read = record { handle = 3; offset = 0; buffer_data = 4096; size = 100 }

abbrev some_write : Write
some_write = record { handle = 3; offset = 0; buffer_data = 4096; buffer_size = 100 }

read_id : read_request_id some_read ≡ 4199
read_id = refl

submitted : Calls idle (submit idle (read_request_id some_read) 8)
submitted = and_then none_yet (submits (read_request_id some_read) 8 refl)

waits : (submit idle (read_request_id some_read) 8).in_flight (read_request_id some_read) ≡ 8 ∷ []
unfolding submit ℕ_discrete
waits = refl

submitted-Served_example :
    Served (submit idle (read_request_id some_read) 8) (read_request_id some_read) 8 (negsuc 4)
submitted-Served_example =
    submitted-Served (read_request_id some_read) 8 [] (negsuc 4) submitted waits
