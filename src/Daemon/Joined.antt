-- ===== src/Daemon/Joined.antt =====
-- What the owner of a daemon can rely on.
use asco.Prelude.{
  ◌+◌, ◌-◌, ◌<◌, ◌≤◌, ◌≡◌, ◌⊎◌, inl, inr, refl, arith, Bool, true, false, ◌&&◌, to_nat,
}
use asco.Daemon.{ThreadPc, OwnerPc, Daemon, daemon, Step, Reach, start, later}

-- Whether `init` is over.
abbrev pub initialised : ThreadPc → Bool
initialised ThreadPc.unstarted = false
initialised ThreadPc.at_barrier = false
initialised ThreadPc.initializing = false
initialised _ = true

abbrev pub is_sleeping : ThreadPc → Bool
is_sleeping ThreadPc.sleeping = true
is_sleeping _ = false

abbrev pub is_finished : ThreadPc → Bool
is_finished ThreadPc.finished = true
is_finished _ = false

-- Whether `start` has returned.
abbrev pub has_started : OwnerPc → Bool
has_started OwnerPc.unstarted = false
has_started OwnerPc.at_barrier = false
has_started OwnerPc.init_waiting = false
has_started _ = true

abbrev has_requested : OwnerPc → Bool
has_requested OwnerPc.awaking = true
has_requested OwnerPc.joining = true
has_requested OwnerPc.joined = true
has_requested _ = false

abbrev pub is_joining : OwnerPc → Bool
is_joining OwnerPc.joining = true
is_joining _ = false

abbrev pub is_joined : OwnerPc → Bool
is_joined OwnerPc.joined = true
is_joined _ = false

record Inv (d : Daemon) : Type 0 where
  pub init : d.m_init_sem + to_nat (has_started d.owner) ≡ to_nat (initialised d.thread)
  pub stop : d.stop_requested ≡ has_requested d.owner
  pub awake : to_nat (is_joining d.owner && is_sleeping d.thread) ≤ d.m_sem
  pub over : to_nat (is_joined d.owner) ≤ to_nat (is_finished d.thread)

Step-Inv : {d e : Daemon} → Step d e → Inv d → Inv e
Step-Inv (Step.thread_arrives at) h = ground (arith, h.init, h.stop, h.awake, h.over)
Step-Inv (Step.thread_passes at all) h = ground (arith, h.init, h.stop, h.awake, h.over)
Step-Inv (Step.init_succeeds at) h = ground (arith, h.init, h.stop, h.awake, h.over)
Step-Inv (Step.init_fails at) h = ground (arith, h.init, h.stop, h.awake, h.over)
Step-Inv (Step.runs_once at going) h = ground (arith, h.init, h.stop, h.awake, h.over)
Step-Inv (Step.stops at asked) h = ground (arith, h.init, h.stop, h.awake, h.over)
Step-Inv (Step.awakened at some_unit) h = ground (arith, h.init, h.stop, h.awake, h.over)
Step-Inv (Step.times_out at) h = ground (arith, h.init, h.stop, h.awake, h.over)
Step-Inv (Step.shuts_down at) h = ground (arith, h.init, h.stop, h.awake, h.over)
Step-Inv (Step.owner_arrives at) h = ground (arith, h.init, h.stop, h.awake, h.over)
Step-Inv (Step.owner_passes at all) h = ground (arith, h.init, h.stop, h.awake, h.over)
Step-Inv (Step.init_awaited at some_unit) h = ground (arith, h.init, h.stop, h.awake, h.over)
Step-Inv (Step.requests_stop at) h = ground (arith, h.init, h.stop, h.awake, h.over)
Step-Inv (Step.awakes_thread at) h = ground (arith, h.init, h.stop, h.awake, h.over)
Step-Inv (Step.joins at over) h = ground (arith, h.init, h.stop, h.awake, h.over)
Step-Inv Step.awakes h = ground (arith, h.init, h.stop, h.awake, h.over)

Reach-Inv : {d : Daemon} → Reach daemon d → Inv d
Reach-Inv start = record { init = refl; stop = refl; awake = omega arith; over = omega arith }
Reach-Inv (later r s) = Step-Inv s (Reach-Inv r)

-- In every order of the steps of a daemon's thread, its owner and the threads that wake it: the owner
-- leaves `start` only when `init` is over, a thread that sleeps while the owner waits for it in
-- `join` has been woken, and `join` is over only when the thread has finished.
pub daemon_lem :
    {d : Daemon}
    → Reach daemon d
    → (to_nat (has_started d.owner) ≤ to_nat (initialised d.thread))
      × (to_nat (is_joining d.owner && is_sleeping d.thread) ≤ d.m_sem)
      × (to_nat (is_joined d.owner) ≤ to_nat (is_finished d.thread))
daemon_lem reach = let h = Reach-Inv reach in (omega (arith, h.init), h.awake, h.over)

-- The steps that the owner and the thread take by themselves.
finish_from :
    (d : Daemon)
    → d.owner ≡ OwnerPc.joining
    → d.thread ≡ ThreadPc.finished
    → (e : Daemon) × Reach d e × (e.owner ≡ OwnerPc.joined)
finish_from d o t = (record d { owner = OwnerPc.joined }, later start (Step.joins o t), refl)

end_from :
    (d : Daemon)
    → d.owner ≡ OwnerPc.joining
    → d.thread ≡ ThreadPc.ending
    → (e : Daemon) × Reach d e × (e.owner ≡ OwnerPc.joined)
end_from d o t = (
  record d { owner = OwnerPc.joined; thread = ThreadPc.finished },
  later (later start (Step.shuts_down t)) (Step.joins o refl),
  refl,
)

test_from :
    (d : Daemon)
    → d.owner ≡ OwnerPc.joining
    → d.stop_requested ≡ true
    → d.thread ≡ ThreadPc.testing
    → (e : Daemon) × Reach d e × (e.owner ≡ OwnerPc.joined)
test_from d o asked t = (
  record d { owner = OwnerPc.joined; thread = ThreadPc.finished },
  later (later (later start (Step.stops t asked)) (Step.shuts_down refl)) (Step.joins o refl),
  refl,
)

sleep_from :
    (d : Daemon)
    → d.owner ≡ OwnerPc.joining
    → d.stop_requested ≡ true
    → 0 < d.m_sem
    → d.thread ≡ ThreadPc.sleeping
    → (e : Daemon) × Reach d e × (e.owner ≡ OwnerPc.joined)
sleep_from d o asked unit_left t = (
  record d { m_sem = d.m_sem - 1; owner = OwnerPc.joined; thread = ThreadPc.finished },
  later
      (later (later (later start (Step.awakened t unit_left)) (Step.stops refl asked))
        (Step.shuts_down refl))
      (Step.joins o refl),
  refl,
)

Pc-cases :
    (t : ThreadPc)
    → initialised t ≡ true
    → (t ≡ ThreadPc.testing)
      ⊎ (t ≡ ThreadPc.sleeping)
      ⊎ (t ≡ ThreadPc.ending)
      ⊎ (t ≡ ThreadPc.finished)
Pc-cases ThreadPc.unstarted h = absurd cc
Pc-cases ThreadPc.at_barrier h = absurd cc
Pc-cases ThreadPc.initializing h = absurd cc
Pc-cases ThreadPc.testing h = inl refl
Pc-cases ThreadPc.sleeping h = inr (inl refl)
Pc-cases ThreadPc.ending h = inr (inr (inl refl))
Pc-cases ThreadPc.finished h = inr (inr (inr refl))

-- Whenever the owner waits in `join`, wherever the thread stands, there are steps that lead to the end
-- of `join`.
pub join_ends :
    {d : Daemon}
    → Reach daemon d
    → d.owner ≡ OwnerPc.joining
    → (e : Daemon) × Reach d e × (e.owner ≡ OwnerPc.joined)
join_ends {d} reach o =
    let h = Reach-Inv reach in
    let asked : d.stop_requested ≡ true = ground (arith, h.stop, o) in
    let begun : initialised d.thread ≡ true = ground (arith, h.init, o) in
    elim (Pc-cases d.thread begun) [
      | inl t ↦ test_from d o asked t
      | inr (inl t) ↦ sleep_from d o asked (ground (arith, h.awake, o, t)) t
      | inr (inr (inl t)) ↦ end_from d o t
      | inr (inr (inr t)) ↦ finish_from d o t
    ]
