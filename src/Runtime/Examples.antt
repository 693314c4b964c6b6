-- ===== src/Runtime/Examples.antt =====
-- A queue with room for two.
use asco.Prelude.{◌+◌, ◌≡◌, arith, [], ◌∷◌, ◌++◌, length}
use asco.Runtime.{Runtime, started, fetch_task, spawn_inside}
use asco.Runtime.Spawned.{Calls, none_yet, and_then, inside, fetches, spawned_lem}

abbrev full : Runtime
full = record { m_backsem_sync = 0; queue = 3 ∷ 4 ∷ []; attached = [] }

three_then_fetched : Calls 2 (fetch_task 2 (spawn_inside 2 (started 2) 3)).1 (3 ∷ [])
three_then_fetched = and_then (and_then none_yet (inside 3 (λ e. omega arith))) fetches

spawned_lem_example :
    let r = (fetch_task 2 (spawn_inside 2 (started 2) 3)).1 in
    (r.attached ++ r.queue ≡ 3 ∷ []) × (r.m_backsem_sync + length r.queue ≡ 2)
spawned_lem_example = spawned_lem 2 three_then_fetched
