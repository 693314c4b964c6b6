-- ===== src/IoUring/Request.antt =====
-- The requests and their ids. Addresses, handles and times are machine words.
use asco.Prelude.{ℕ, bit_xor}

-- `open_flags`
pub data OpenFlag : Type 0 where
  read write create truncate append exclusive temporary : OpenFlag

-- `create_mode`
pub data CreateMode : Type 0 where
  read write execute read_share write_share execute_share : CreateMode

-- The text that `path` points to is left out; `flags` and `modes` are the words of the flag sets.
pub record Open : Type 0 where
  pub path_data : ℕ
  pub path_size : ℕ
  pub flags : ℕ
  pub modes : ℕ
  pub timestamp : ℕ

pub record Close : Type 0 where
  pub handle : ℕ

-- A buffer is its address here, with its size.
pub record Read : Type 0 where
  pub handle : ℕ
  pub offset : ℕ
  pub buffer_data : ℕ
  pub size : ℕ

pub record Write : Type 0 where
  pub handle : ℕ
  pub offset : ℕ
  pub buffer_data : ℕ
  pub buffer_size : ℕ

abbrev pub open_request_id : Open → ℕ
open_request_id r =
    bit_xor (bit_xor (bit_xor (bit_xor r.path_data r.path_size) r.flags) r.modes) r.timestamp

abbrev pub close_request_id : Close → ℕ
close_request_id r = r.handle

abbrev pub read_request_id : Read → ℕ
read_request_id r = bit_xor (bit_xor (bit_xor r.handle r.offset) r.buffer_data) r.size

abbrev pub write_request_id : Write → ℕ
write_request_id r = bit_xor (bit_xor r.handle r.buffer_data) r.buffer_size
