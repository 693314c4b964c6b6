-- ===== src/IoUring/Collision.antt =====
-- Two writes of one buffer have one id, wherever in the file they go.
use asco.Prelude.{
  ℕ, ◌≡◌, ◌≢◌, refl, sym, ap, ◌∙◌, true, false, Option, none, some, List, [], ◌∷◌, ◌++◌, update,
  update_self,
}
use asco.File.{ℤ, pos}
use asco.IoUring.{Entry, Adapter, insert, submit, complete, run_once}
use asco.IoUring.Request.{Write, write_request_id}
use asco.IoUring.Pending.{idle, arrived, without_first}

-- `write` of the same buffer at `offset`
abbrev pub at_offset : Write → ℕ → Write
at_offset r offset = record r { offset = offset }

-- Both writes submitted, the first for `token` and the second for `token'`.
abbrev pub both : Write → ℕ → ℕ → ℕ → Adapter
both r offset token token' =
    submit (submit idle (write_request_id r) token) (write_request_id (at_offset r offset)) token'

-- The first result wakes and is returned to its task; the second finds no entry, and its task sleeps on.
pub record SecondLost (b : Adapter) (reqid token token' : ℕ) (res res' : ℤ) : Type 0 where
  pub a₁ : Adapter
  pub a₂ : Adapter
  pub runs : run_once false (arrived b reqid) reqid res ≡ some (true, a₁)
  pub returns : complete a₁ reqid ≡ some (res, a₂)
  pub wakes : a₂.awoken ≡ b.awoken ++ token ∷ []
  pub waits : a₂.in_flight reqid ≡ token' ∷ []
  pub panics : run_once false (arrived a₂ reqid) reqid res' ≡ none

second_lost :
    (b : Adapter) (reqid token token' : ℕ) (old res res' : ℤ)
    → b.m_requests reqid ≡ some (record { token = token; res = old })
    → b.in_flight reqid ≡ token ∷ token' ∷ []
    → SecondLost b reqid token token' res res'
unfolding run_once complete
second_lost b reqid token token' old res res' there two =
    let kept : Entry = record { token = token; res = res } in
    let a : Adapter = record (arrived b reqid) {
      m_requests = update b.m_requests reqid (some kept);
      awoken = b.awoken ++ token ∷ [];
    } in
    record {
      a₁ = a;
      a₂ = record a { m_requests = update a.m_requests reqid none };
      runs = rw there refl;
      returns = rw (complete, update_self b.m_requests reqid (some kept)) refl;
      wakes = refl;
      waits =
          update_self b.in_flight reqid (without_first (b.in_flight reqid)) ∙ ap without_first two;
      panics = rw (run_once, update_self a.m_requests reqid none) refl;
    }

submitted_twice :
    (reqid token token' : ℕ)
    → let b = submit (submit idle reqid token) reqid token' in
      (b.m_requests reqid ≡ some (record { token = token; res = pos 0 }))
      × (b.in_flight reqid ≡ token ∷ token' ∷ [])
unfolding submit
submitted_twice reqid token token' =
    let start : Entry = record { token = token; res = pos 0 } in
    let table : ℕ → Option Entry = update (λ _. none) reqid (some start) in
    let there : table reqid ≡ some start = update_self (λ _. none) reqid (some start) in
    let queue : ℕ → List ℕ = update (λ _. []) reqid (token ∷ []) in
    (
      rw (insert, there) there,
      update_self queue reqid (queue reqid ++ token' ∷ [])
          ∙ ap (λ q. q ++ token' ∷ []) (update_self (λ _. []) reqid (token ∷ [])),
    )

-- Two writes of one buffer at different offsets have the same id. If both are submitted to an idle
-- adapter and the kernel completes one, then the first task is woken and gets the result, and when
-- the kernel completes the other, `run_once` panics, with the second task not woken.
pub writes_collide :
    (r : Write) (offset token token' : ℕ) (res res' : ℤ)
    → r.offset ≢ offset
    → (at_offset r offset ≢ r)
      × (write_request_id (at_offset r offset) ≡ write_request_id r)
      × SecondLost (both r offset token token') (write_request_id r) token token' res res'
writes_collide r offset token token' res res' apart = (
  λ e. apart (sym (ap (λ w. w.offset) e)),
  refl,
  let (there, two) = submitted_twice (write_request_id r) token token' in
      second_lost (both r offset token token') (write_request_id r) token token' (pos 0) res res'
        there two,
)
