-- ===== src/JoinSet/Examples.antt =====
-- A set with room for four outputs: two tasks are spawned, and one of them sends 7.
use asco.Prelude.{ℕ, ◌+◌, ◌≡◌, refl, some, List, [], ◌∷◌}
use asco.Channel.{send}
use asco.JoinSet.{JoinSet, join_set, spawn, task_sends, co_await}
use asco.JoinSet.Outputs.{Calls, none_yet, and_then, spawns, sends, having}
use asco.JoinSet.Joined.{join_set_lem}

abbrev two_spawned : JoinSet ℕ
two_spawned = spawn 4 (spawn 4 (join_set 4))

abbrev seven_sent : JoinSet ℕ
seven_sent = having 4 1 (7 ∷ []) 3

sends_seven : task_sends 4 two_spawned 7 ≡ some seven_sent
unfolding task_sends send
sends_seven = refl

seven_calls : Calls 4 seven_sent (7 ∷ []) []
seven_calls = and_then (and_then (and_then none_yet spawns) spawns) (sends 7 sends_seven)

join_set_lem_example :
    (◌≡◌ {A = List ℕ} (7 ∷ []) (7 ∷ []))
    × (seven_sent.m_task_count ≡ 1 + 1)
    × (co_await 4 seven_sent ≡ some (some 7, having 4 1 [] 4))
join_set_lem_example = join_set_lem 4 seven_calls
