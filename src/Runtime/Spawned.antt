-- ===== src/Runtime/Spawned.antt =====
-- Which coroutines reach a worker.
use asco.Prelude.{
  ℕ, zero, suc, ◌+◌, ◌≡◌, ◌≢◌, refl, sym, ap, ◌∙◌, arith, true, false, none, some, List, [], ◌∷◌,
  ◌++◌, length, length-append, append_assoc, ltb, lt→ltb, subst, some-injective,
}
use asco.Channel.{try_send}
use asco.Runtime.{Runtime, started, fetch_task, send, spawn_outside, spawn_inside}

-- A call that finds a place, or a worker that looks for a coroutine; with the coroutines spawned so far.
pub data Call (capacity : ℕ) (r : Runtime) (all : List ℕ) : Runtime → List ℕ → Type 0 where
  outside :
      {r' : Runtime} (h : ℕ)
      → spawn_outside capacity r h ≡ some r'
      → Call capacity r all r' (all ++ h ∷ [])
  inside :
      (h : ℕ)
      → r.m_backsem_sync ≢ 0
      → Call capacity r all (spawn_inside capacity r h) (all ++ h ∷ [])
  fetches : Call capacity r all (fetch_task capacity r).1 all

pub data Calls (capacity : ℕ) : Runtime → List ℕ → Type 0 where
  none_yet : Calls capacity (started capacity) []
  and_then :
      {r r' : Runtime} {all all' : List ℕ}
      → Calls capacity r all
      → Call capacity r all r' all'
      → Calls capacity r' all'

module _ (capacity : ℕ) where
  -- Free places and queued coroutines are the whole queue, and no coroutine is lost or out of order.
  pub record Kept (r : Runtime) (all : List ℕ) : Type 0 where
    pub places : r.m_backsem_sync + length r.queue ≡ capacity
    pub in_order : r.attached ++ r.queue ≡ all

  sent :
      (r : Runtime) (h b : ℕ) (all : List ℕ)
      → r.m_backsem_sync ≡ suc b
      → Kept r all
      → Kept (send capacity (record r { m_backsem_sync = b }) h) (all ++ h ∷ [])
  sent r h b all one k =
      let room : ltb (length r.queue) capacity ≡ true =
        lt→ltb (length r.queue) capacity (omega (arith, k.places)) in
      let stored : try_send capacity r.queue h ≡ r.queue ++ h ∷ [] = rw (try_send, room) refl in
      record {
        places =
            ap (λ q. b + length q) stored
            ∙ omega (arith, k.places, length-append {0} r.queue (h ∷ []));
        in_order =
            ap (λ q. r.attached ++ q) stored
            ∙ sym (append_assoc r.attached r.queue (h ∷ []))
            ∙ ap (λ q. q ++ h ∷ []) k.in_order;
      }

  fetched :
      (r : Runtime) (q all : List ℕ) → r.queue ≡ q → Kept r all → Kept (fetch_task capacity r).1 all
  unfolding fetch_task
  fetched r [] all e k = rw (fetch_task, e) k
  fetched r (h ∷ rest) all e k =
      rw (fetch_task, e)
        (record {
          places = omega (arith, k.places, ap (length {0}) e);
          in_order =
              append_assoc r.attached (h ∷ []) rest
              ∙ ap (λ q. r.attached ++ q) (sym e)
              ∙ k.in_order;
        })

  outside-Kept :
      (r r' : Runtime) (h n : ℕ) (all : List ℕ)
      → r.m_backsem_sync ≡ n
      → spawn_outside capacity r h ≡ some r'
      → Kept r all
      → Kept r' (all ++ h ∷ [])
  unfolding spawn_outside
  outside-Kept r r' h zero all e runs k =
      let waits : spawn_outside capacity r h ≡ none = rw (spawn_outside, e) refl in absurd cc
  outside-Kept r r' h (suc b) all e runs k =
      let done : spawn_outside capacity r h
          ≡ some (send capacity (record r { m_backsem_sync = b }) h) =
        rw (spawn_outside, e) refl in
      subst (λ x. Kept x (all ++ h ∷ [])) (some-injective (sym done ∙ runs)) (sent r h b all e k)

  inside-Kept :
      (r : Runtime) (h n : ℕ) (all : List ℕ)
      → r.m_backsem_sync ≡ n
      → n ≢ 0
      → Kept r all
      → Kept (spawn_inside capacity r h) (all ++ h ∷ [])
  unfolding spawn_inside
  inside-Kept r h zero all e free k = absurd (free refl)
  inside-Kept r h (suc b) all e free k = rw (spawn_inside, e) (sent r h b all e k)

  Calls-Kept : {r : Runtime} {all : List ℕ} → Calls capacity r all → Kept r all
  Calls-Kept none_yet = record { places = omega arith; in_order = refl }
  Calls-Kept (and_then {r = r} {r' = r'} {all = all} calls (outside h runs)) =
      outside-Kept r r' h r.m_backsem_sync all refl runs (Calls-Kept calls)
  Calls-Kept (and_then {r = r} {all = all} calls (inside h free)) =
      inside-Kept r h r.m_backsem_sync all refl free (Calls-Kept calls)
  Calls-Kept (and_then {r = r} {all = all} calls fetches) =
      fetched r r.queue all refl (Calls-Kept calls)

  -- As long as a spawn from inside the runtime finds a unit of the semaphore, the workers get the
  -- coroutines in the order in which they were spawned and none is lost: those attached, and then
  -- those queued, are all of them; and the units and the queued coroutines together are the
  -- capacity.
  pub spawned_lem :
      {r : Runtime} {all : List ℕ}
      → Calls capacity r all
      → (r.attached ++ r.queue ≡ all) × (r.m_backsem_sync + length r.queue ≡ capacity)
  spawned_lem calls = let k = Calls-Kept calls in (k.in_order, k.places)

  -- What a spawn from inside does on a full queue: it makes room by fetching a coroutine itself, and
  -- leaves behind the unit that the fetch released.
  full_once :
      (r : Runtime) (h first : ℕ) (rest : List ℕ)
      → r.m_backsem_sync ≡ 0
      → r.queue ≡ first ∷ rest
      → length r.queue ≡ capacity
      → spawn_inside capacity r h
        ≡ record { m_backsem_sync = 1; queue = rest ++ h ∷ []; attached = r.attached ++ first ∷ [] }
  unfolding spawn_inside fetch_task
  full_once r h first rest none_free filled full =
      let room : ltb (length rest) capacity ≡ true =
        lt→ltb (length rest) capacity (omega (arith, full, ap (length {0}) filled)) in
      let stored : try_send capacity rest h ≡ rest ++ h ∷ [] = rw (try_send, room) refl in
      rw (spawn_inside, none_free, fetch_task, filled, stored, none_free) refl

  -- On a full queue two spawns from inside the runtime, with no worker in between, lose the second
  -- coroutine: the first makes room by attaching the coroutine at the front and is queued, and the
  -- second leaves the queue and the attached coroutines as they are.
  pub spawn_loses :
      (r : Runtime) (h h' first : ℕ) (rest : List ℕ)
      → r.m_backsem_sync ≡ 0
      → r.queue ≡ first ∷ rest
      → length r.queue ≡ capacity
      → spawn_inside capacity (spawn_inside capacity r h) h'
        ≡ record { m_backsem_sync = 0; queue = rest ++ h ∷ []; attached = r.attached ++ first ∷ [] }
  unfolding spawn_inside
  spawn_loses r h h' first rest none_free filled full =
      let count : length (rest ++ h ∷ []) ≡ capacity =
        omega (arith, length-append {0} rest (h ∷ []), full, ap (length {0}) filled) in
      let crowded : ltb (length (rest ++ h ∷ [])) capacity ≡ false = ground (arith, count) in
      let dropped : try_send capacity (rest ++ h ∷ []) h' ≡ rest ++ h ∷ [] =
        rw (try_send, crowded) refl in
      ap (λ x. spawn_inside capacity x h') (full_once r h first rest none_free filled full)
      ∙ rw dropped refl
