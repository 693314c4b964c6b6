-- ===== src/JoinHandle/Once.antt =====
-- The threads together: the task completes once.
use asco.Prelude.{
  ℕ, ◌+◌, ◌≤◌, ◌<◌, ◌≡◌, refl, sym, arith, to_nat, Bool, true, false, some, update, update_self,
  update_ne, count, count-update, count-zero, count-two, count-at, count-pair, count_mono, subst,
  ℕ_discrete,
}
use asco.Interleaving.{System, Reach, Reach-keeps}
use asco.JoinHandle.{CompleteState, is_completed, Outcome, Memory, Pc, Move, spawned}
use asco.JoinHandle.Completion.{
  is_winner, is_finishing, is_released, Local, Shape, Move-Shape, Move-Local_self, Move-Local_other,
}

pub at_most_one : (c : CompleteState) → to_nat (is_completed c) ≤ 1
at_most_one c = ground arith

module _ {A : Type 0} (n : ℕ) where
  abbrev pub spawning : System (Memory A) (Pc A)
  spawning = record { mem = spawned; pc = λ _. Pc.idle }

  pub record Inv (s : System (Memory A) (Pc A)) : Type 0 where
    pub shape :
        Shape (count is_winner n s.pc) (count is_finishing n s.pc) (count is_released n s.pc) s.mem
    pub locals : (j : ℕ) → j < n → Local s.mem (s.pc j)

  pub Inv-spawning : Inv spawning
  Inv-spawning = record {
    shape = record {
      one = none_yet is_winner refl;
      permits = omega arith;
      early = λ e. refl;
      unset = λ e. (λ t. refl, refl);
    };
    locals = λ j h. tt;
  }
    where
      none_yet : (t : Pc A → Bool) → t Pc.idle ≡ false → count t n (λ _. Pc.idle) ≡ 0
      none_yet t e = count-zero t n (λ _. Pc.idle) (λ _. e)

  pub Move-Inv :
      (s : System (Memory A) (Pc A)) (i : ℕ) (m' : Memory A) (p' : Pc A)
      → i < n
      → Move i s.mem (s.pc i) m' p'
      → Inv s
      → Inv (record { mem = m'; pc = update s.pc i p' })
  Move-Inv s i m' p' lt mv inv = record {
    shape =
        Move-Shape i (c is_winner) (c is_finishing) (c is_released) (c' is_winner) (c' is_finishing)
          (c' is_released) mv moved (inv.locals i lt) (count-at is_winner n s.pc i lt) inv.shape;
    locals = λ j h. elim (ℕ_discrete i j) [
      | yes same ↦
          subst (λ x. Local m' (update s.pc i p' x)) same
            (subst (Local m') (sym (update_self s.pc i p')) (
              Move-Local_self i (c is_winner) (c is_finishing) (c is_released) (c' is_winner)
                (c' is_finishing) (c' is_released) mv moved inv.shape (inv.locals i lt)))
      | no other ↦ subst (Local m') (sym (update_ne s.pc i j p' other)) (
          Move-Local_other i (c is_winner) (c is_finishing) (c is_released) (c' is_winner)
            (c' is_finishing) (c' is_released) (s.pc j) mv moved inv.shape (inv.locals i lt)
            (count-pair is_winner n s.pc i j lt h other) (inv.locals j h))
    ];
  }
    where
      c : (Pc A → Bool) → ℕ
      c t = count t n s.pc

      c' : (Pc A → Bool) → ℕ
      c' t = count t n (update s.pc i p')

      moved :
          (c' is_winner + to_nat (is_winner (s.pc i)) ≡ c is_winner + to_nat (is_winner p'))
          × (c' is_finishing + to_nat (is_finishing (s.pc i))
              ≡ c is_finishing + to_nat (is_finishing p'))
          × (c' is_released + to_nat (is_released (s.pc i))
              ≡ c is_released + to_nat (is_released p'))
      moved = (
        count-update is_winner n s.pc i p' lt,
        count-update is_finishing n s.pc i p' lt,
        count-update is_released n s.pc i p' lt,
      )

  Reach-Inv : {s : System (Memory A) (Pc A)} → Reach Move n spawning s → Inv s
  Reach-Inv reach = Reach-keeps Move n Inv Move-Inv reach Inv-spawning

  is_released-le : (p : Pc A) → to_nat (is_released p) ≤ to_nat (is_winner p)
  is_released-le p = ground arith

  -- Of any number of threads that complete a spawned task, by a value, an exception, a cancellation
  -- or its end, one at most wins; the binary semaphore is never above 1; and the value or
  -- exception of a completion that is over is the one that is stored.
  pub completes_once :
      {s : System (Memory A) (Pc A)}
      → Reach Move n spawning s
      → (i j : ℕ) → i < n
      → j < n
      → (is_winner (s.pc i) ≡ true → is_winner (s.pc j) ≡ true → i ≡ j)
        × (s.mem.sync_awaiter ≤ 1)
        × ((o : Outcome A) → s.pc i ≡ Pc.finished o → s.mem.outcome ≡ some o)
  completes_once {s} reach i j hi hj = (
    λ won also. elim (ℕ_discrete i j) [
      | yes same ↦ same
      | no other ↦
          absurd
            (ground (arith, inv.shape.one, count-two is_winner n s.pc i j hi hj other won also))
    ],
    ground (
      arith,
      inv.shape.one,
      inv.shape.permits,
      count_mono is_released is_winner is_released-le n s.pc,
    ),
    λ o over. subst (Local s.mem) over (inv.locals i hi),
  )
    where
      inv : Inv s
      inv = Reach-Inv reach
