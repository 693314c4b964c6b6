-- ===== src/Select/Examples.antt =====
-- Two branches; both end, and the second one is first at the exchange.
use asco.Prelude.{ℕ, ◌≡◌, ◌≢◌, ◌⊎◌, refl, arith, true, none, some, value, update}
use asco.Interleaving.{start}
use asco.Interleaving.Pair.{At, first_moves, second_moves}
use asco.Select.{Ending, Memory, Pc, Move, selecting, await_resume}
use asco.Select.First.{started, select_lem}

abbrev seven : Ending ℕ ℕ
seven = value 7

abbrev apart : ◌≢◌ {A = ℕ} 0 1
apart e = omega arith

abbrev Here : Memory ℕ ℕ → Pc ℕ ℕ → Pc ℕ ℕ → Type 0
Here = At Move 2 started 0 1 (omega arith) (omega arith) apart

go : {m m' : Memory ℕ ℕ} {p p' q : Pc ℕ ℕ} → Here m p q → Move 0 m p m' p' → Here m' p' q
go = first_moves Move 2 started 0 1 (omega arith) (omega arith) apart

go' : {m m' : Memory ℕ ℕ} {p q q' : Pc ℕ ℕ} → Here m p q → Move 1 m q m' q' → Here m' p q'
go' = second_moves Move 2 started 0 1 (omega arith) (omega arith) apart

abbrev chosen : Memory ℕ ℕ
chosen = record selecting { m_complete_branch = some 1 }

abbrev given : Memory ℕ ℕ
given = record chosen { cancelled = true; m_futures = update (λ _. none) 1 (some seven) }

both : Here given Pc.yielding (Pc.returned seven)
both =
    let a₀ : Here selecting Pc.awaiting Pc.awaiting = record {
      state = started;
      reach = start;
      mem_is = refl;
      first = refl;
      second = refl;
    } in
    let a₁ : Here selecting (Pc.exchange (value 3)) Pc.awaiting = go a₀ (Move.ends (value 3)) in
    let a₂ : Here selecting (Pc.exchange (value 3)) (Pc.exchange seven) =
      go' a₁ (Move.ends seven) in
    let a₃ : Here chosen (Pc.exchange (value 3)) (Pc.cancel seven) = go' a₂ (Move.first refl) in
    let a₄ : Here chosen Pc.yielding (Pc.cancel seven) = go a₃ (Move.late (λ e. cc)) in
    let a₅ : Here (record chosen { cancelled = true }) Pc.yielding (Pc.returns seven) =
      go' a₄ Move.cancels in
    go' a₅ Move.gives

select_lem_example :
    (both.state.mem.cancelled ≡ true)
    × (await_resume 2 both.state.mem ≡ some (1, seven))
    × ((both.state.pc 0 ≡ Pc.cancel seven)
          ⊎ (both.state.pc 0 ≡ Pc.returns seven)
          ⊎ (both.state.pc 0 ≡ Pc.returned seven)
        → ◌≡◌ {A = ℕ} 0 1)
select_lem_example = select_lem 2 both.reach 1 0 seven seven (omega arith) both.second
