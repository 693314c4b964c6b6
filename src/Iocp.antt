-- ===== src/Iocp.antt =====
-- asco/core/os/windows/iocp.cpp: requests to the system, and their results.
-- The system starts each transfer, and completes it with any result: what it answers is an argument. Handles,
-- security identifiers and tokens are numbers; the tables are the maps that HashMap shows its tables to be.
pub mod Opening
pub mod Owners
pub mod Transfers
mod Examples
use asco.Prelude.{
  ℕ, Bool, true, false, not, ◌==◌, Option, none, some, List, [], ◌∷◌, ◌++◌, update, Expected, value,
  unexpected, if◌then◌else◌,
}
use asco.File.{pos}
use asco.IoUring.Results.{TransferError, Failed}

-- `request_wrap`
pub record RequestWrap : Type 0 where
  pub token : ℕ
  pub finished : Bool
  pub ok : Bool
  pub bytes_transferred : ℕ
  pub error_code : ℕ

-- `m_requests`, the requests for which the system will send a packet, and the tokens that were woken.
pub record Adapter : Type 0 where
  pub m_requests : ℕ → Option RequestWrap
  pub in_flight : ℕ → Bool
  pub awoken : List ℕ

-- The answer of ReadFile or WriteFile: the transfer goes on, or has failed with an error.
pub data Started : Type 0 where
  pending : Started
  failed : (err : ℕ) → Started

-- The constants of <windows.h>, in small letters.
pub record Errors : Type 0 where
  pub error_handle_eof : ℕ
  pub error_invalid_handle : ℕ
  pub error_noaccess : ℕ
  pub error_access_denied : ℕ

module _ (n : Errors) where
  abbrev pub started : Started → RequestWrap → RequestWrap
  started Started.pending reqw = reqw
  started (Started.failed err) reqw = record reqw {
    finished = true;
    ok = err == n.error_handle_eof;
    bytes_transferred = 0;
    error_code = err;
  }

  -- `submit`; a transfer that has failed posts its packet itself. `none` is the panic on an id that is there.
  unfoldable pub submit : Adapter → ℕ → ℕ → Started → Option Adapter
  submit a reqid token answer = elim (a.m_requests reqid) [
    | some _ ↦ none
    | none ↦ some (record a {
      m_requests = update a.m_requests reqid (
          some (
            started answer (record {
              token = token;
              finished = false;
              ok = false;
              bytes_transferred = 0;
              error_code = 0;
            })));
      in_flight = update a.in_flight reqid true;
    })
  ]

  unfoldable pub transfer_error : ℕ → TransferError
  transfer_error code =
      if code == n.error_invalid_handle
      then TransferError.invalid_handle
      else if code == n.error_noaccess
      then TransferError.bad_buffer
      else if code == n.error_access_denied
      then TransferError.permission_denied
      else TransferError.other

  -- The result of `complete_write` from the request, and of `complete_read` as well where it succeeded.
  unfoldable pub write_result : RequestWrap → Expected ℕ (Failed TransferError)
  write_result reqw =
      if reqw.ok
      then value reqw.bytes_transferred
      else unexpected
          (record { type = transfer_error reqw.error_code; raw_code = pos reqw.error_code })

  unfoldable pub read_result : RequestWrap → Expected ℕ (Failed TransferError)
  read_result reqw =
      if not reqw.ok
      then (if reqw.error_code == n.error_handle_eof then value 0 else write_result reqw)
      else write_result reqw

-- `complete`; `none` is the panic on a request that is not there.
unfoldable pub complete : Adapter → ℕ → Option (RequestWrap × Adapter)
complete a reqid = elim (a.m_requests reqid) [
  | none ↦ none
  | some reqw ↦ some (reqw, record a { m_requests = update a.m_requests reqid none })
]

-- A packet of the completion port; one without `overlapped` only wakes the daemon.
pub data Packet : Type 0 where
  nothing : Packet
  packet : (reqid : ℕ) (ok : Bool) (bytes error : ℕ) → Packet

abbrev pub noted : RequestWrap → Bool → ℕ → ℕ → RequestWrap
noted reqw ok bytes error =
    if reqw.finished
    then reqw
    else record reqw { ok = ok; bytes_transferred = bytes; error_code = if ok then 0 else error }

-- `run_once`: whether the daemon goes on. `none` is the panic on a request that is not there.
unfoldable pub run_once : Bool → Adapter → Packet → Option (Bool × Adapter)
run_once true a p = some (false, a)
run_once false a Packet.nothing = some (true, a)
run_once false a (Packet.packet reqid ok bytes error) = elim (a.m_requests reqid) [
  | none ↦ none
  | some reqw ↦ some (
    true,
    record a {
      m_requests = update a.m_requests reqid (some (noted reqw ok bytes error));
      awoken = a.awoken ++ reqw.token ∷ [];
    },
  )
]
