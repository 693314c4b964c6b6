-- ===== src/Iocp/Examples.antt =====
-- A read at the end of a file, two handles of one owner, and flags.
use asco.Prelude.{false, none, List, [], ◌∷◌}
use asco.Iocp.{Adapter, Errors}
use asco.Iocp.Owners.{Call, run, Counts, handles, references_lem}

abbrev errors : Errors
errors = record {
  error_handle_eof = 38;
  error_invalid_handle = 6;
  error_noaccess = 998;
  error_access_denied = 5;
}

abbrev empty : Adapter
empty = record { m_requests = λ _. none; in_flight = λ _. false; awoken = [] }

abbrev three : List Call
three = Call.submit_close 4 ∷ Call.get_state 5 90 ∷ Call.get_state 4 90 ∷ []

references_lem_example : Counts ((run three).sid_map 90) (handles 90 (run three).handle_sid_map)
references_lem_example = references_lem three 90
