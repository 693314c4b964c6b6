-- ===== src/HashMap/Errors.antt =====
-- asco/concurrency/hash_map.h: the error codes of the operations. `contains_failed` is `GetFailed`.

pub data InsertFailed : Type 0 where
  rehashing key_repeated rehash_needed retry : InsertFailed

pub data RemoveFailed : Type 0 where
  none retry rehashing guard_protecting : RemoveFailed

pub data GetFailed : Type 0 where
  none rehashing retry : GetFailed
