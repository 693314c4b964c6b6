-- ===== src/JoinHandle/Awaiter.antt =====
-- A join handle with one awaiter: it is woken, and reads the result.
use asco.Prelude.{
  ℕ, ◌+◌, ◌≤◌, ◌<◌, ◌≡◌, refl, sym, ap, ◌∙◌, ◌≢◌, arith, to_nat, Bool, true, false, Option, none,
  some, some-injective, update, update_self, update_ne, count, count-update, count-pos, count-sum,
  subst, ℕ_discrete, Bool-cases, inl, inr,
}
use asco.Interleaving.{System, Reach, start, later, pick, Reach-keeps}
use asco.JoinHandle.{is_completed, Outcome, Memory, Pc, Move}
use asco.JoinHandle.Completion.{is_winner, is_finishing, Local}
use asco.JoinHandle.Once.{spawning, at_most_one, Inv, Inv-spawning, Move-Inv}

module _ {A : Type 0} where
  abbrev pub is_awaiting : Pc A → Bool
  is_awaiting Pc.await_token = true
  is_awaiting Pc.await_store = true
  is_awaiting Pc.await_load = true
  is_awaiting (Pc.await_exchange e) = true
  is_awaiting Pc.suspended = true
  is_awaiting Pc.resume = true
  is_awaiting Pc.resume_early = true
  is_awaiting (Pc.got o) = true
  is_awaiting (Pc.got_early o) = true
  is_awaiting Pc.got_moved = true
  is_awaiting _ = false

  -- The accesses where thread `a` alone awaits the task.
  abbrev pub Sole : ℕ → ℕ → Memory A → Pc A → Memory A → Pc A → Type 0
  Sole a i m p m' p' = Move i m p m' p' × (is_awaiting p' ≡ true → i ≡ a)

  abbrev has_taken : Pc A → Bool
  has_taken (Pc.got o) = true
  has_taken (Pc.got_early o) = true
  has_taken _ = false

  -- What the place of the awaiter says of the memory, with `f` threads finishing.
  abbrev Seen : ℕ → ℕ → Memory A → Pc A → Type 0
  Seen a f m Pc.await_store = m.token_storage ≡ some a
  Seen a f m Pc.await_load = (m.token_storage ≡ some a) × (m.caller_awake_token ≡ true)
  Seen a f m (Pc.await_exchange e) =
      (m.token_storage ≡ some a) × (m.caller_awake_token ≡ true) × (is_completed e ≡ false)
  Seen a f m Pc.suspended =
      (m.token_storage ≡ some a)
      × (m.caller_awake_token ≡ true)
      × (to_nat (is_completed m.cstate) ≤ f + m.awoken a)
  Seen a f m Pc.got_moved = ⊥
  Seen a f m _ = Unit

  module _ (a f f' : ℕ) where
    abbrev Finishing : Pc A → Pc A → Type 0
    Finishing p p' = f' + to_nat (is_finishing p) ≡ f + to_nat (is_finishing p')

    Move-Seen_self :
        {m m' : Memory A} {p p' : Pc A}
        → Move a m p m' p'
        → Seen a f m p
        → (m.is_moved ≡ true → has_taken p ≡ true)
        → Seen a f' m' p'
    Move-Seen_self Move.constructs l t = refl
    Move-Seen_self Move.stores_token l t = (l, refl)
    Move-Seen_self (Move.await_loads q) l t = (l.0, l.1, q)
    Move-Seen_self (Move.await_wins q) l t = (l.0, l.1, omega arith)
    Move-Seen_self Move.await_fails l t = (l.0, l.1)
    Move-Seen_self (Move.takes_moved q) l t = absurd (ground (arith, t q))
    Move-Seen_self (Move.takes_moved_early q) l t = absurd (ground (arith, t q))
    Move-Seen_self mv l t = tt

    Move-taken_self :
        {m m' : Memory A} {p p' : Pc A}
        → Move a m p m' p'
        → (m.is_moved ≡ true → has_taken p ≡ true)
        → m'.is_moved ≡ true
        → has_taken p' ≡ true
    Move-taken_self (Move.takes q) t e = refl
    Move-taken_self (Move.takes_early q) t e = refl
    Move-taken_self mv t e = absurd (ground (arith, t e))

    -- What the moves of the others leave.
    Move-storage :
        {i : ℕ} {m m' : Memory A} {p p' : Pc A}
        → Move i m p m' p'
        → is_awaiting p' ≡ false
        → m'.token_storage ≡ m.token_storage
    Move-storage Move.constructs n = absurd cc
    Move-storage mv n = refl

    Move-is_moved :
        {i : ℕ} {m m' : Memory A} {p p' : Pc A}
        → Move i m p m' p'
        → is_awaiting p' ≡ false
        → m'.is_moved ≡ m.is_moved
    Move-is_moved (Move.takes q) n = absurd cc
    Move-is_moved (Move.takes_early q) n = absurd cc
    Move-is_moved mv n = refl

    Move-token :
        {i : ℕ} {m m' : Memory A} {p p' : Pc A}
        → Move i m p m' p'
        → m.caller_awake_token ≡ true
        → m'.caller_awake_token ≡ true
    Move-token Move.stores_token t = refl
    Move-token mv t = t

    Move-woken :
        {i : ℕ} {m m' : Memory A} {p p' : Pc A}
        → Move i m p m' p'
        → Finishing p p'
        → m.token_storage ≡ some a
        → m.caller_awake_token ≡ true
        → to_nat (is_completed m.cstate) ≤ f + m.awoken a
        → to_nat (is_completed m'.cstate) ≤ f' + m'.awoken a
    Move-woken (Move.mark_wins q) c s t l = omega arith
    Move-woken {m = m} (Move.awakes {t = u} q q') c s t l =
        let mine : a ≡ u = some-injective (sym s ∙ q') in
        let more : update m.awoken u (m.awoken u + 1) a ≡ m.awoken a + 1 =
          ap (λ x. update m.awoken u (m.awoken u + 1) x) mine
          ∙ update_self m.awoken u (m.awoken u + 1)
          ∙ ap (λ x. m.awoken x + 1) (sym mine) in
        omega (arith, more)
    Move-woken (Move.awakes_no_one q) c s t l = absurd cc
    Move-woken (Move.await_wins q) c s t l = omega arith
    Move-woken mv c s t l = omega arith

    Move-Seen_other :
        {i : ℕ} {m m' : Memory A} {p p' : Pc A} (q : Pc A)
        → Move i m p m' p'
        → is_awaiting p' ≡ false
        → Finishing p p'
        → Seen a f m q
        → Seen a f' m' q
    Move-Seen_other Pc.await_store mv n c l = Move-storage mv n ∙ l
    Move-Seen_other Pc.await_load mv n c l = (Move-storage mv n ∙ l.0, Move-token mv l.1)
    Move-Seen_other (Pc.await_exchange e) mv n c l =
        (Move-storage mv n ∙ l.0, Move-token mv l.1, l.2)
    Move-Seen_other Pc.suspended mv n c l =
        (Move-storage mv n ∙ l.0, Move-token mv l.1, Move-woken mv c l.0 l.1 l.2)
    Move-Seen_other Pc.got_moved mv n c l = l
    Move-Seen_other q mv n c l = tt

module _ {A : Type 0} (n a : ℕ) where
  record Watched (s : System (Memory A) (Pc A)) : Type 0 where
    pub others : (j : ℕ) → j ≢ a → is_awaiting (s.pc j) ≡ false
    pub seen : Seen a (count is_finishing n s.pc) s.mem (s.pc a)
    pub taken : s.mem.is_moved ≡ true → has_taken (s.pc a) ≡ true

  Watched-spawning : Watched (spawning n)
  Watched-spawning = record { others = λ j h. refl; seen = tt; taken = λ e. absurd cc }

  Move-Watched :
      (s : System (Memory A) (Pc A)) (i : ℕ) (m' : Memory A) (p' : Pc A)
      → i < n
      → Sole a i s.mem (s.pc i) m' p'
      → Watched s
      → Watched (record { mem = m'; pc = update s.pc i p' })
  Move-Watched s i m' p' lt mv h = elim (ℕ_discrete i a) [
    | yes same ↦
        let mv' : Move a s.mem (s.pc a) m' p' =
          subst (λ x. Move x s.mem (s.pc x) m' p') same mv.0 in
        let here : update s.pc i p' a ≡ p' =
          ap (λ x. update s.pc x p' a) same ∙ update_self s.pc a p' in
        record {
          others = λ j off.
              ap is_awaiting (update_ne s.pc i j p' (λ e. off (sym e ∙ same))) ∙ h.others j off;
          seen = subst (Seen a (count is_finishing n (update s.pc i p')) m') (sym here) (
              Move-Seen_self a (count is_finishing n s.pc) (count is_finishing n (update s.pc i p'))
                mv' h.seen h.taken);
          taken = λ e.
              ap has_taken here
              ∙ Move-taken_self a (count is_finishing n s.pc)
                  (count is_finishing n (update s.pc i p')) mv' h.taken e;
        }
    | no other ↦
        let quiet : is_awaiting p' ≡ false = elim (Bool-cases (is_awaiting p')) [
          | inl awaits ↦ absurd (other (mv.1 awaits))
          | inr not_awaiting ↦ not_awaiting
        ] in
        let there : update s.pc i p' a ≡ s.pc a = update_ne s.pc i a p' other in
        record {
          others = λ j off. elim (ℕ_discrete i j) [
            | yes here ↦
                ap is_awaiting (ap (update s.pc i p') (sym here) ∙ update_self s.pc i p') ∙ quiet
            | no elsewhere ↦ ap is_awaiting (update_ne s.pc i j p' elsewhere) ∙ h.others j off
          ];
          seen = subst (Seen a (count is_finishing n (update s.pc i p')) m') (sym there) (
              Move-Seen_other a (count is_finishing n s.pc)
                (count is_finishing n (update s.pc i p')) (s.pc a) mv.0 quiet
                (count-update is_finishing n s.pc i p' lt) h.seen);
          taken = λ e.
              ap has_taken there
              ∙ h.taken (
                  sym (
                    Move-is_moved a (count is_finishing n s.pc)
                      (count is_finishing n (update s.pc i p')) mv.0 quiet)
                  ∙ e);
        }
  ]

  pub Reach-Move : {s t : System (Memory A) (Pc A)} → Reach (Sole a) n s t → Reach Move n s t
  Reach-Move start = start
  Reach-Move (later r (pick i lt mv)) = later (Reach-Move r) (pick i lt mv.0)

  -- Of the threads that won, those that have looked for the awaiter.
  abbrev is_over : Pc A → Bool
  is_over (Pc.awake_cancelled o) = true
  is_over (Pc.finished o) = true
  is_over _ = false

  apart : (p : Pc A) → to_nat (is_finishing p) + to_nat (is_over p) ≤ to_nat (is_winner p)
  apart p = ground arith

  -- If one thread alone awaits a spawned task, and a completion of the task is over: if the awaiter is
  -- suspended, its own token has been woken; if it has read the result after a wakeup or through the
  -- semaphore, what it read is what the completion left; and it has not read a value that was moved out before.
  pub awaiter_woken :
      {s : System (Memory A) (Pc A)}
      → Reach (Sole a) n (spawning n) s
      → (i : ℕ) → i < n
      → a < n
      → (o : Outcome A) → s.pc i ≡ Pc.finished o
      → (s.pc a ≡ Pc.suspended → 0 < s.mem.awoken a)
        × ((r : Option (Outcome A)) → s.pc a ≡ Pc.got r → r ≡ some o)
        × (s.pc a ≢ Pc.got_moved)
  awaiter_woken {s} reach i hi ha o over = (
    λ sleeps.
        let local : (s.mem.token_storage ≡ some a)
            × (s.mem.caller_awake_token ≡ true)
            × (to_nat (is_completed s.mem.cstate) ≤ count is_finishing n s.pc + s.mem.awoken a) =
          subst (Seen a (count is_finishing n s.pc) s.mem) sleeps watched.seen in
        omega (
          arith,
          local.2,
          inv.shape.one,
          count-sum is_finishing is_over is_winner apart n s.pc,
          count-pos is_over n s.pc i hi (ap is_over over),
          at_most_one s.mem.cstate,
        ),
    λ r reads.
        let local : (s.mem.outcome ≡ r) × (r ≢ none) =
          subst (Local s.mem) reads (inv.locals a ha) in
        sym local.0 ∙ subst (Local s.mem) over (inv.locals i hi),
    λ late. subst (Seen a (count is_finishing n s.pc) s.mem) late watched.seen,
  )
    where
      inv : Inv n s
      inv =
          Reach-keeps (Sole a) n (Inv n) (λ t j m p lt mv. Move-Inv n t j m p lt mv.0) reach
            (Inv-spawning n)

      watched : Watched s
      watched = Reach-keeps (Sole a) n Watched Move-Watched reach Watched-spawning
