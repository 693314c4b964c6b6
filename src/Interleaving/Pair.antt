-- ===== src/Interleaving/Pair.antt =====
-- A run in which two threads move and the others stay where they are.
use asco.Prelude.{ℕ, ◌<◌, ◌≡◌, refl, ◌≢◌, update, update_self, update_ne, ◌∙◌, sym, subst}
use asco.Interleaving.{System, pick, Reach, later}

module _ {M P : Type 0} (Move : ℕ → M → P → M → P → Type 0) (n : ℕ) (from : System M P) (i j : ℕ)
    (hi : i < n) (hj : j < n) (apart : i ≢ j) where
  -- A reachable state with this memory and these places of the two threads.
  pub record At (m : M) (p q : P) : Type 0 where
    pub state : System M P
    pub reach : Reach Move n from state
    pub mem_is : state.mem ≡ m
    pub first : state.pc i ≡ p
    pub second : state.pc j ≡ q

  pub first_moves : {m m' : M} {p p' q : P} → At m p q → Move i m p m' p' → At m' p' q
  first_moves {m = m} {m' = m'} {p' = p'} a mv = record {
    state = record { mem = m'; pc = update a.state.pc i p' };
    reach = later a.reach (
        pick i hi (
          subst (λ x. Move i x (a.state.pc i) m' p') (sym a.mem_is)
            (subst (λ x. Move i m x m' p') (sym a.first) mv)));
    mem_is = refl;
    first = update_self a.state.pc i p';
    second = update_ne a.state.pc i j p' apart ∙ a.second;
  }

  pub second_moves : {m m' : M} {p q q' : P} → At m p q → Move j m q m' q' → At m' p q'
  second_moves {m = m} {m' = m'} {q' = q'} a mv = record {
    state = record { mem = m'; pc = update a.state.pc j q' };
    reach = later a.reach (
        pick j hj (
          subst (λ x. Move j x (a.state.pc j) m' q') (sym a.mem_is)
            (subst (λ x. Move j m x m' q') (sym a.second) mv)));
    mem_is = refl;
    first = update_ne a.state.pc j i q' (λ e. apart (sym e)) ∙ a.first;
    second = update_self a.state.pc j q';
  }
