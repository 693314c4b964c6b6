-- ===== src/Daemon/Examples.antt =====
-- A daemon that sleeps when its owner joins it.
use asco.Prelude.{◌≤◌, refl, arith, true, ◌&&◌, to_nat}
use asco.Daemon.{ThreadPc, OwnerPc, Daemon, daemon, Step, Reach, start, later}
use asco.Daemon.Joined.{
  initialised, is_sleeping, is_finished, has_started, is_joining, is_joined, daemon_lem,
}

abbrev asleep : Daemon
asleep = record {
  m_init_sem = 0;
  m_sem = 1;
  arrived = 2;
  stop_requested = true;
  thread = ThreadPc.sleeping;
  owner = OwnerPc.joining;
}

abbrev started : Daemon
started = record daemon {
  m_init_sem = 1;
  arrived = 2;
  thread = ThreadPc.sleeping;
  owner = OwnerPc.init_waiting;
}

start_sleeping : Reach daemon started
start_sleeping =
    let a₁ = later start (Step.thread_arrives refl) in
    let a₂ = later a₁ (Step.owner_arrives refl) in
    let a₃ = later a₂ (Step.thread_passes refl (omega arith)) in
    let a₄ = later a₃ (Step.init_succeeds refl) in
    let a₅ = later a₄ (Step.owner_passes refl (omega arith)) in later a₅ (Step.runs_once refl refl)

join_sleeping : Reach daemon asleep
join_sleeping =
    let a₁ = later start_sleeping (Step.init_awaited refl (omega arith)) in
    later (later a₁ (Step.requests_stop refl)) (Step.awakes_thread refl)

daemon_lem_example :
    (to_nat (has_started asleep.owner) ≤ to_nat (initialised asleep.thread))
    × (to_nat (is_joining asleep.owner && is_sleeping asleep.thread) ≤ asleep.m_sem)
    × (to_nat (is_joined asleep.owner) ≤ to_nat (is_finished asleep.thread))
daemon_lem_example = daemon_lem join_sleeping
