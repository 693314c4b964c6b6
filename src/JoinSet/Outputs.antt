-- ===== src/JoinSet/Outputs.antt =====
-- Which outputs come back from a join set.
use asco.Prelude.{
  ℕ, zero, suc, ◌+◌, ◌-◌, ◌≡◌, refl, sym, ap, ◌∙◌, arith, subst, false, Option, none, some, List,
  [], ◌∷◌, ◌++◌, append_assoc, length, length-append, some-injective, value, ◌==◌,
}
use asco.Channel.{send, recv}
use asco.Channel.Fifo.{holding, channel_lem}
use asco.JoinSet.{JoinSet, join_set, spawn, task_sends, co_await}

module _ {T : Type 0} (capacity : ℕ) where
  -- A call of the set's owner or the end of a task, with the outputs sent and those received so far.
  pub data Call (js : JoinSet T) (sent got : List T) : JoinSet T → List T → List T → Type 0 where
    spawns : Call js sent got (spawn capacity js) sent got
    sends :
        {js' : JoinSet T} (v : T)
        → task_sends capacity js v ≡ some js'
        → Call js sent got js' (sent ++ v ∷ []) got
    receives :
        {js' : JoinSet T} {v : T}
        → co_await capacity js ≡ some (some v, js')
        → Call js sent got js' sent (got ++ v ∷ [])
    ends :
        {js' : JoinSet T} → co_await capacity js ≡ some (none, js') → Call js sent got js' sent got

  pub data Calls : JoinSet T → List T → List T → Type 0 where
    none_yet : Calls (join_set capacity) [] []
    and_then :
        {js js' : JoinSet T} {sent got sent' got' : List T}
        → Calls js sent got
        → Call js sent got js' sent' got'
        → Calls js' sent' got'

  -- The set with the outputs `q` unreceived, room for `b` more and `running` tasks.
  abbrev pub having : ℕ → List T → ℕ → JoinSet T
  having running q b = record {
    m_task_count = running + length q;
    tx_rx = holding q b;
    running = running;
  }

  pub record Kept (js : JoinSet T) (sent got : List T) : Type 0 where
    pub tasks : ℕ
    pub queue : List T
    pub room : ℕ
    pub is : js ≡ having tasks queue room
    pub places : length queue + room ≡ capacity
    pub in_order : got ++ queue ≡ sent

  sends_room :
      (running : ℕ) (q : List T) (b : ℕ) (v : T)
      → length q + suc b ≡ capacity
      → task_sends capacity (having (suc running) q (suc b)) v
        ≡ some (having running (q ++ v ∷ []) b)
  unfolding task_sends
  sends_room running q b v h =
      let sent : send capacity (holding q (suc b)) v ≡ some (value tt, holding (q ++ v ∷ []) b) =
        (channel_lem capacity q b v h).0 in
      let some_run : (suc running == 0) ≡ false = ground arith in
      let one_less : suc running - 1 ≡ running = omega arith in
      rw (task_sends, some_run, sent, one_less)
        (ap
          (λ n.
            some (record { m_task_count = n; tx_rx = holding (q ++ v ∷ []) b; running = running }))
          (omega (arith, length-append q (v ∷ []))))

  sends_none : (q : List T) (b : ℕ) (v : T) → task_sends capacity (having 0 q b) v ≡ none
  unfolding task_sends
  sends_none q b v = refl

  sends_full :
      (running : ℕ) (q : List T) (v : T) → task_sends capacity (having (suc running) q 0) v ≡ none
  unfolding task_sends send
  sends_full running q v =
      let some_run : (suc running == 0) ≡ false = ground arith in rw (task_sends, some_run) refl

  pub awaits_first :
      (running : ℕ) (v : T) (q : List T) (b : ℕ)
      → length q + suc b ≡ capacity
      → co_await capacity (having running (v ∷ q) b) ≡ some (some v, having running q (suc b))
  unfolding co_await
  awaits_first running v q b h =
      let received : recv capacity (holding (v ∷ q) b) ≡ some (some v, holding q (suc b)) =
        (channel_lem capacity q b v h).1 in
      let counted : (running + suc (length q) == 0) ≡ false = ground arith in
      rw (co_await, counted, received)
        (ap
          (λ n.
            some
              (some v, record { m_task_count = n; tx_rx = holding q (suc b); running = running }))
          (omega arith))

  pub awaits_nothing : (b : ℕ) → co_await capacity (having 0 [] b) ≡ some (none, having 0 [] b)
  unfolding co_await
  awaits_nothing b = refl

  pub awaits_task : (running : ℕ) (b : ℕ) → co_await capacity (having (suc running) [] b) ≡ none
  unfolding co_await recv
  awaits_task running b =
      let counted : (suc running + 0 == 0) ≡ false = ground arith in rw (co_await, counted) refl

  spawns-Kept :
      (running : ℕ) (q : List T) (b : ℕ) (sent got : List T)
      → length q + b ≡ capacity
      → got ++ q ≡ sent
      → Kept (spawn capacity (having running q b)) sent got
  spawns-Kept running q b sent got h e = record {
    tasks = running + 1;
    queue = q;
    room = b;
    is =
        ap (λ n. record { m_task_count = n; tx_rx = holding q b; running = running + 1 })
          (omega arith);
    places = h;
    in_order = e;
  }

  sends-Kept :
      (running : ℕ) (q : List T) (b : ℕ) (sent got : List T) (v : T) (js' : JoinSet T)
      → length q + b ≡ capacity
      → got ++ q ≡ sent
      → task_sends capacity (having running q b) v ≡ some js'
      → Kept js' (sent ++ v ∷ []) got
  sends-Kept zero q b sent got v js' h e runs =
      let refused : task_sends capacity (having 0 q b) v ≡ none = sends_none q b v in absurd cc
  sends-Kept (suc running) q zero sent got v js' h e runs =
      let waits : task_sends capacity (having (suc running) q 0) v ≡ none =
        sends_full running q v in
      absurd cc
  sends-Kept (suc running) q (suc b) sent got v js' h e runs = record {
    tasks = running;
    queue = q ++ v ∷ [];
    room = b;
    is = some-injective (sym runs ∙ sends_room running q b v h);
    places = omega (arith, length-append q (v ∷ []), h);
    in_order = sym (append_assoc got q (v ∷ [])) ∙ ap (λ xs. xs ++ v ∷ []) e;
  }

  receives-Kept :
      (running : ℕ) (q : List T) (b : ℕ) (sent got : List T) (v : T) (js' : JoinSet T)
      → length q + b ≡ capacity
      → got ++ q ≡ sent
      → co_await capacity (having running q b) ≡ some (some v, js')
      → Kept js' sent (got ++ v ∷ [])
  receives-Kept zero [] b sent got v js' h e runs =
      let nothing : co_await capacity (having 0 [] b) ≡ some (none, having 0 [] b) =
        awaits_nothing b in
      absurd cc
  receives-Kept (suc running) [] b sent got v js' h e runs =
      let waits : co_await capacity (having (suc running) [] b) ≡ none = awaits_task running b in
      absurd cc
  receives-Kept running (x ∷ q) b sent got v js' h e runs =
      let first : ◌≡◌ {A = Option T × JoinSet T} (some v, js') (some x, having running q (suc b)) =
        some-injective (sym runs ∙ awaits_first running x q b (omega (arith, h))) in
      record {
        tasks = running;
        queue = q;
        room = suc b;
        is = ap (λ r. r.1) first;
        places = omega (arith, h);
        in_order =
            ap (λ y. (got ++ y ∷ []) ++ q) (some-injective (ap (λ r. r.0) first))
            ∙ append_assoc got (x ∷ []) q
            ∙ e;
      }

  ends-Kept :
      (running : ℕ) (q : List T) (b : ℕ) (sent got : List T) (js' : JoinSet T)
      → length q + b ≡ capacity
      → got ++ q ≡ sent
      → co_await capacity (having running q b) ≡ some (none, js')
      → Kept js' sent got
  ends-Kept zero [] b sent got js' h e runs = record {
    tasks = 0;
    queue = [];
    room = b;
    is = ap (λ r. r.1) (some-injective (sym runs ∙ awaits_nothing b));
    places = h;
    in_order = e;
  }
  ends-Kept (suc running) [] b sent got js' h e runs =
      let waits : co_await capacity (having (suc running) [] b) ≡ none = awaits_task running b in
      absurd cc
  ends-Kept running (x ∷ q) b sent got js' h e runs =
      let first : co_await capacity (having running (x ∷ q) b)
          ≡ some (some x, having running q (suc b)) =
        awaits_first running x q b (omega (arith, h)) in
      absurd cc

  Call-Kept :
      {js js' : JoinSet T} {sent got sent' got' : List T}
      → Call js sent got js' sent' got'
      → Kept js sent got
      → Kept js' sent' got'
  Call-Kept {js = js} {sent = sent} {got = got} spawns k =
      subst (λ x. Kept (spawn capacity x) sent got) (sym k.is)
        (spawns-Kept k.tasks k.queue k.room sent got k.places k.in_order)
  Call-Kept {js' = js'} {sent = sent} {got = got} (sends v runs) k =
      sends-Kept k.tasks k.queue k.room sent got v js' k.places k.in_order
        (ap (λ x. task_sends capacity x v) (sym k.is) ∙ runs)
  Call-Kept {js' = js'} {sent = sent} {got = got} (receives {v = v} runs) k =
      receives-Kept k.tasks k.queue k.room sent got v js' k.places k.in_order
        (ap (co_await capacity) (sym k.is) ∙ runs)
  Call-Kept {js' = js'} {sent = sent} {got = got} (ends runs) k =
      ends-Kept k.tasks k.queue k.room sent got js' k.places k.in_order
        (ap (co_await capacity) (sym k.is) ∙ runs)

  pub Calls-Kept : {js : JoinSet T} {sent got : List T} → Calls js sent got → Kept js sent got
  Calls-Kept none_yet = record {
    tasks = 0;
    queue = [];
    room = capacity;
    is = refl;
    places = omega arith;
    in_order = refl;
  }
  Calls-Kept (and_then calls call) = Call-Kept call (Calls-Kept calls)
