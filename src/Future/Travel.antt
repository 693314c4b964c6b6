-- ===== src/Future/Travel.antt =====
-- What comes out of a future that has been moved.
use asco.Prelude.{
  ℕ, ◌+◌, ◌≡◌, ◌≢◌, refl, sym, ap, ◌∙◌, arith, inl, inr, true, false, not, Bool-cases, Option, none,
  some, List, [], ◌∷◌, length, update, update_self, update_ne,
}
use asco.Future.{
  Outcome, Frame, unfinished, get_return_object, store, complete, move_to, move_from, move,
  await_resume, destroys_value, is_null,
}

-- The variable in which a future ends that goes on from variable `j` through these.
abbrev pub last_of : ℕ → List ℕ → ℕ
last_of j [] = j
last_of j (i ∷ is) = last_of i is

module _ {V E : Type 0} (moved : V → V) (moved_ptr : E → Option E) where
  abbrev pub travel : ℕ → List ℕ → Frame V E → Frame V E
  travel j [] s = s
  travel j (i ∷ is) s = travel i is (move moved moved_ptr i j s)

  -- The future is in variable `j`, and the coroutine goes on.
  record Running (j : ℕ) (s : Frame V E) : Type 0 where
    pub here : s.futures j ≡ unfinished
    pub points_here : s.m_future_object ≡ j
    pub alive : s.is_destroyed ≡ false
    pub no_strays : s.stray_writes ≡ 0

  -- It is in variable `j`, and the coroutine has ended.
  record Ended (o : Outcome V E) (n j : ℕ) (s : Frame V E) : Type 0 where
    pub here : s.futures j ≡ store o unfinished
    pub dead : s.is_destroyed ≡ true
    pub strays : s.stray_writes ≡ n

  move-Running : (i j : ℕ) (s : Frame V E) → Running j s → Running i (move moved moved_ptr i j s)
  unfolding move move_to
  move-Running i j s r = record {
    here = rw r.alive (
        update_self (update s.futures j (move_from moved moved_ptr (s.futures j))) i _
        ∙ ap (move_to moved moved_ptr) r.here);
    points_here = rw r.alive refl;
    alive = rw r.alive refl;
    no_strays = rw r.alive r.no_strays;
  }

  stored_moves :
      (o : Outcome V E) → move_to moved moved_ptr (store o unfinished) ≡ store o unfinished
  unfolding move_to
  stored_moves (Outcome.returned v) = refl
  stored_moves (Outcome.threw e) = refl

  move-Ended :
      (o : Outcome V E) (n i j : ℕ) (s : Frame V E)
      → Ended o n j s
      → Ended o (n + 1) i (move moved moved_ptr i j s)
  unfolding move
  move-Ended o n i j s r = record {
    here = rw r.dead (
        update_self (update s.futures j (move_from moved moved_ptr (s.futures j))) i _
        ∙ ap (move_to moved moved_ptr) r.here
        ∙ stored_moves o);
    dead = rw r.dead refl;
    strays = rw r.dead (ap (λ k. k + 1) r.strays);
  }

  travel-Running :
      (j : ℕ) (is : List ℕ) (s : Frame V E) → Running j s → Running (last_of j is) (travel j is s)
  travel-Running j [] s r = r
  travel-Running j (i ∷ is) s r =
      travel-Running i is (move moved moved_ptr i j s) (move-Running i j s r)

  travel-Ended :
      (o : Outcome V E) (n j : ℕ) (is : List ℕ) (s : Frame V E)
      → Ended o n j s
      → Ended o (n + length is) (last_of j is) (travel j is s)
  travel-Ended o n j [] s r = record {
    here = r.here;
    dead = r.dead;
    strays = omega (arith, r.strays);
  }
  travel-Ended o n j (i ∷ is) s r =
      let rest =
        travel-Ended o (n + 1) i is (move moved moved_ptr i j s) (move-Ended o n i j s r) in
      record { here = rest.here; dead = rest.dead; strays = omega (arith, rest.strays) }

  complete-Ended :
      (o : Outcome V E) (j : ℕ) (s : Frame V E) → Running j s → Ended o 0 j (complete o s)
  unfolding complete
  complete-Ended o j s r = record {
    here = rw r.points_here (update_self s.futures j _ ∙ ap (store o) r.here);
    dead = refl;
    strays = r.no_strays;
  }

  start-Running : Running 0 get_return_object
  unfolding get_return_object
  start-Running = record { here = refl; points_here = refl; alive = refl; no_strays = refl }

  stored_result : (o : Outcome V E) → await_resume (store o unfinished) ≡ some o
  unfolding await_resume
  stored_result (Outcome.returned v) = refl
  stored_result (Outcome.threw e) = refl

  stored_value :
      (o : Outcome V E)
      → destroys_value (store o unfinished) ≡ not (is_null (store o unfinished).m_value)
  unfolding destroys_value
  stored_value (Outcome.returned v) = refl
  stored_value (Outcome.threw e) = refl

  -- A future that is made in variable 0 and moved from variable to variable, before and after its
  -- coroutine ends with an output or an exception: in the variable where it is then, await_resume gives
  -- that output, or throws that exception, and the destructor destroys a value just if there is one. Each of
  -- the moves after the end writes to the promise, whose frame is destroyed by then.
  pub future_lem :
      (o : Outcome V E) (before after : List ℕ)
      → let middle = last_of 0 before in
        let end = last_of middle after in
        let s = travel middle after (complete o (travel 0 before get_return_object)) in
        (await_resume (s.futures end) ≡ some o)
        × (destroys_value (s.futures end) ≡ not (is_null (s.futures end).m_value))
        × (s.stray_writes ≡ length after)
  future_lem o before after =
      let middle = last_of 0 before in
      let r =
        travel-Ended o 0 middle after _
          (complete-Ended o middle _ (travel-Running 0 before get_return_object start-Running)) in
      (
        ap await_resume r.here ∙ stored_result o,
        ap destroys_value r.here ∙ stored_value o ∙ sym (ap (λ f. not (is_null f.m_value)) r.here),
        omega (arith, r.strays),
      )

  left_behind :
      (i j : ℕ) (s : Frame V E)
      → i ≢ j
      → (move moved moved_ptr i j s).futures j ≡ move_from moved moved_ptr (s.futures j)
  unfolding move
  left_behind i j s ne =
      let rhs = s.futures j in
      let left = update s.futures j (move_from moved moved_ptr rhs) in
      let same =
        update_ne left i j (move_to moved moved_ptr rhs) ne
        ∙ update_self s.futures j (move_from moved moved_ptr rhs) in
      elim (Bool-cases s.is_destroyed) [ inl dead ↦ rw dead same | inr alive ↦ rw alive same ]

  -- When a future whose coroutine has thrown is moved, and the pointer to the exception that it leaves
  -- behind is null, the destructor of the old future destroys a value that nobody constructed.
  thrown_moves :
      (e : E) (i j : ℕ) (s : Frame V E)
      → i ≢ j
      → s.futures j ≡ store (Outcome.threw e) unfinished
      → moved_ptr e ≡ none
      → let f = (move moved moved_ptr i j s).futures j in
        (destroys_value f ≡ true) × (f.m_value ≡ none)
  unfolding move_from destroys_value
  thrown_moves e i j s ne h null =
      let left = left_behind i j s ne ∙ ap (move_from moved moved_ptr) h in
      (ap destroys_value left ∙ ap (λ o. is_null o) null, ap (λ f. f.m_value) left)
