-- ===== src/JoinSet/Joined.antt =====
-- What the owner of a join set gets.
use asco.Prelude.{
  ℕ, zero, suc, ◌+◌, ◌-◌, ◌<◌, ◌≡◌, refl, sym, ap, ◌∙◌, arith, subst, true, false, Option, none,
  some, List, [], ◌∷◌, ◌++◌, length, ◌==◌, if◌then◌else◌,
}
use asco.Channel.{Channel, send, stop}
use asco.Channel.Stop.{stop_lem}
use asco.JoinSet.{JoinSet, task_sends, co_await, join_all}
use asco.JoinSet.Outputs.{Calls, Calls-Kept, having, awaits_first, awaits_nothing, awaits_task}

module _ {T : Type 0} (capacity : ℕ) where
  -- What awaiting a set should do: the first output that is there; if there is none, nothing when
  -- no task runs, and waiting when one does.
  abbrev awaited : JoinSet T → Option (Option T × JoinSet T)
  awaited js = elim js.tx_rx.queue [
    | [] ↦ if js.running == 0 then some (none, js) else none
    | v ∷ q ↦ some (some v, having capacity js.running q (js.tx_rx.backpress_sem + 1))
  ]

  awaits :
      (running : ℕ) (q : List T) (b : ℕ)
      → length q + b ≡ capacity
      → co_await capacity (having capacity running q b) ≡ awaited (having capacity running q b)
  awaits zero [] b h = awaits_nothing capacity b
  awaits (suc running) [] b h =
      let some_run : (suc running == 0) ≡ false = ground arith in
      awaits_task capacity running b ∙ sym (rw some_run refl)
  awaits running (v ∷ q) b h =
      awaits_first capacity running v q b (omega (arith, h))
      ∙ ap (λ n. some (some v, having capacity running q n)) (omega arith)

  -- After any calls of a set's owner with outputs of its tasks in between: the outputs received,
  -- and then those in the channel, are all that were sent, in order; the count of tasks is that of
  -- those running and of the outputs in the channel; and awaiting the set takes the first output,
  -- or, if there is none, ends when no task runs and waits when one does.
  pub join_set_lem :
      {js : JoinSet T} {sent got : List T}
      → Calls capacity js sent got
      → (got ++ js.tx_rx.queue ≡ sent)
        × (js.m_task_count ≡ js.running + length js.tx_rx.queue)
        × (co_await capacity js ≡ awaited js)
  join_set_lem {js} {sent} {got} calls =
      let k = Calls-Kept capacity calls in
      subst
        (λ x.
          (got ++ x.tx_rx.queue ≡ sent)
          × (x.m_task_count ≡ x.running + length x.tx_rx.queue)
          × (co_await capacity x ≡ awaited x))
        (sym k.is) (k.in_order, refl, awaits k.tasks k.queue k.room k.places)

  refused :
      (n r k b : ℕ) (q : List T) (v : T)
      → let stopped : Channel T = record {
        closed = true;
        count_sem = k;
        backpress_sem = b;
        queue = q;
      } in
        task_sends capacity (record { m_task_count = n; tx_rx = stopped; running = suc r }) v
        ≡ some (record { m_task_count = n; tx_rx = stopped; running = r })
  unfolding task_sends send
  refused n r k b q v =
      let some_run : (suc r == 0) ≡ false = ground arith in
      let one_less : suc r - 1 ≡ r = omega arith in rw (task_sends, some_run, one_less) refl

  joined :
      (running : ℕ) (q sent got : List T) (b : ℕ)
      → length q < capacity
      → got ++ q ≡ sent
      → got ++ join_all capacity (length q + 1) (having capacity running q b) ≡ sent
  joined running q sent got b room e = ap (λ xs. got ++ xs) (stop_lem capacity q b room) ∙ e

  -- `join_all`, called while tasks run and the channel is not full, gives just the outputs that were
  -- sent before it and not received; what a running task sends after its `stop` is refused and lost.
  pub join_all_misses :
      {js : JoinSet T} {sent got : List T}
      → Calls capacity js sent got
      → (r : ℕ) (v : T) → js.running ≡ suc r
      → length js.tx_rx.queue < capacity
      → (got ++ join_all capacity (length js.tx_rx.queue + 1) js ≡ sent)
        × (task_sends capacity (record js { tx_rx = stop capacity js.tx_rx }) v
            ≡ some (record js { tx_rx = stop capacity js.tx_rx; running = r }))
  join_all_misses {js} {sent} {got} calls r v runs room =
      let k = Calls-Kept capacity calls in
      let short : length k.queue < capacity =
        subst (λ x. length x.tx_rx.queue < capacity) k.is room in
      (
        subst (λ x. got ++ join_all capacity (length x.tx_rx.queue + 1) x ≡ sent) (sym k.is)
            (joined k.tasks k.queue sent got k.room short k.in_order),
        subst
            (λ x.
              task_sends capacity (record js { tx_rx = stop capacity js.tx_rx; running = x }) v
              ≡ some (record js { tx_rx = stop capacity js.tx_rx; running = r }))
            (sym runs) (refused js.m_task_count r _ _ js.tx_rx.queue v),
      )
