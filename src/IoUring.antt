-- ===== src/IoUring.antt =====
-- asco/core/os/io.h and asco/core/os/linux/io_uring.cpp: requests to the kernel, and their results.
-- The ring is the kernel's: it holds what was submitted, and completes it in any order, with any result. A
-- token is a number; the table of requests is the map that HashMap shows its tables to be.
pub mod Request
pub mod Opening
pub mod Results
pub mod Pending
pub mod Collision
mod Examples
use asco.Prelude.{
  ℕ, Bool, true, false, Option, none, some, List, [], ◌∷◌, ◌++◌, update, if◌then◌else◌,
}
use asco.File.{ℤ, pos}

-- The entry of a request: its token, and `cqe->res` once it has come.
pub record Entry : Type 0 where
  pub token : ℕ
  pub res : ℤ

-- `m_requests`, the requests that the kernel has not completed, each with the token that it was submitted
-- with, and the tokens that were suspended and woken, in order.
pub record Adapter : Type 0 where
  pub m_requests : ℕ → Option Entry
  pub in_flight : ℕ → List ℕ
  pub suspended : List ℕ
  pub awoken : List ℕ

-- `insert` of the table, which keeps an entry that is there.
abbrev pub insert : (ℕ → Option Entry) → ℕ → Entry → ℕ → Option Entry
insert table reqid p = elim (table reqid) [ none ↦ update table reqid (some p) | some _ ↦ table ]

-- `submit` of a request whose `gen_request_id` is `reqid`
unfoldable pub submit : Adapter → ℕ → ℕ → Adapter
submit a reqid token = record {
  m_requests = insert a.m_requests reqid (record { token = token; res = pos 0 });
  in_flight = update a.in_flight reqid (a.in_flight reqid ++ token ∷ []);
  suspended = a.suspended ++ token ∷ [];
  awoken = a.awoken;
}

-- `complete`; `none` is the panic on a request that is not there.
unfoldable pub complete : Adapter → ℕ → Option (ℤ × Adapter)
complete a reqid = elim (a.m_requests reqid) [
  | none ↦ none
  | some p ↦ some (p.res, record a { m_requests = update a.m_requests reqid none })
]

-- `run_once` when the kernel has completed a request with `reqid`, with result `res`: whether the daemon goes
-- on. `none` is the panic on a request that is not there.
unfoldable pub run_once : Bool → Adapter → ℕ → ℤ → Option (Bool × Adapter)
run_once stop_requested a reqid res =
    if stop_requested then some (false, a) else elim (a.m_requests reqid) [
      | none ↦ none
      | some p ↦ some (
        true,
        record a {
          m_requests = update a.m_requests reqid (some (record p { res = res }));
          awoken = a.awoken ++ p.token ∷ [];
        },
      )
    ]
