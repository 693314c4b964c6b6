-- ===== src/Select/First.antt =====
-- Only the first branch that completes gives a result.
use asco.Prelude.{
  ℕ, zero, suc, ◌+◌, ◌≤◌, ◌<◌, ◌≡◌, ◌≢◌, ◌⊎◌, inl, inr, refl, ap, sym, ◌∙◌, arith, true, false,
  none, some, update, update_self, update_ne, subst, ℕ_discrete, some-injective, ◌==◌,
}
use asco.Interleaving.{System, Reach, Reach-keeps}
use asco.Select.{Ending, Memory, Pc, Move, selecting, gen, await_resume}

module _ {A E : Type 0} where
  -- What holds of branch `i` where it stands.
  abbrev Local : Memory A E → ℕ → Pc A E → Type 0
  Local m i Pc.awaiting = Unit
  Local m i (Pc.exchange o) = Unit
  Local m i (Pc.cancel o) = m.m_complete_branch ≡ some i
  Local m i (Pc.returns o) = (m.m_complete_branch ≡ some i) × (m.cancelled ≡ true)
  Local m i (Pc.returned o) =
      (m.m_complete_branch ≡ some i) × (m.cancelled ≡ true) × (m.m_futures i ≡ some o)
  Local m i Pc.yielding = m.m_complete_branch ≢ none

  Move-Local_self :
      {i : ℕ} {m m' : Memory A E} {p p' : Pc A E} → Move i m p m' p' → Local m i p → Local m' i p'
  Move-Local_self (Move.ends o) h = tt
  Move-Local_self (Move.first free) h = refl
  Move-Local_self (Move.late taken) h = taken
  Move-Local_self Move.cancels h = (h, refl)
  Move-Local_self {i = i} {m = m} (Move.gives {o = o}) h =
      (h.0, h.1, update_self m.m_futures i (some o))
  Move-Local_self Move.yields h = h

  Local-first :
      (m : Memory A E) (i j : ℕ) (p : Pc A E)
      → m.m_complete_branch ≡ none
      → Local m j p
      → Local (record m { m_complete_branch = some i }) j p
  Local-first m i j Pc.awaiting free h = tt
  Local-first m i j (Pc.exchange o) free h = tt
  Local-first m i j (Pc.cancel o) free h = absurd cc
  Local-first m i j (Pc.returns o) free h = absurd (let taken = h.0 in cc)
  Local-first m i j (Pc.returned o) free h = absurd (let taken = h.0 in cc)
  Local-first m i j Pc.yielding free h = absurd (h free)

  Local-cancels :
      (m : Memory A E) (j : ℕ) (p : Pc A E)
      → Local m j p
      → Local (record m { cancelled = true }) j p
  Local-cancels m j Pc.awaiting h = tt
  Local-cancels m j (Pc.exchange o) h = tt
  Local-cancels m j (Pc.cancel o) h = h
  Local-cancels m j (Pc.returns o) h = (h.0, refl)
  Local-cancels m j (Pc.returned o) h = (h.0, refl, h.2)
  Local-cancels m j Pc.yielding h = h

  Local-gives :
      (m : Memory A E) (i j : ℕ) (given : Ending A E) (p : Pc A E)
      → i ≢ j
      → Local m j p
      → Local (record m { m_futures = update m.m_futures i (some given) }) j p
  Local-gives m i j given Pc.awaiting other h = tt
  Local-gives m i j given (Pc.exchange o) other h = tt
  Local-gives m i j given (Pc.cancel o) other h = h
  Local-gives m i j given (Pc.returns o) other h = h
  Local-gives m i j given (Pc.returned o) other h =
      (h.0, h.1, update_ne m.m_futures i j (some given) other ∙ h.2)
  Local-gives m i j given Pc.yielding other h = h

  Move-Local_other :
      {i j : ℕ} {m m' : Memory A E} {p p' : Pc A E} (q : Pc A E)
      → i ≢ j
      → Move i m p m' p'
      → Local m j q
      → Local m' j q
  Move-Local_other q other (Move.ends o) h = h
  Move-Local_other {i = i} {j = j} {m = m} q other (Move.first free) h = Local-first m i j q free h
  Move-Local_other q other (Move.late taken) h = h
  Move-Local_other {j = j} {m = m} q other Move.cancels h = Local-cancels m j q h
  Move-Local_other {i = i} {j = j} {m = m} q other (Move.gives {o = o}) h =
      Local-gives m i j o q other h
  Move-Local_other q other Move.yields h = h

  abbrev pub started : System (Memory A E) (Pc A E)
  started = record { mem = selecting; pc = λ _. Pc.awaiting }

  abbrev Locals : System (Memory A E) (Pc A E) → Type 0
  Locals s = (j : ℕ) → Local s.mem j (s.pc j)

  Move-Locals :
      (s : System (Memory A E) (Pc A E)) (i : ℕ) (m : Memory A E) (p : Pc A E)
      → Move i s.mem (s.pc i) m p
      → Locals s
      → Locals (record { mem = m; pc = update s.pc i p })
  Move-Locals s i m p mv h = λ j. elim (ℕ_discrete i j) [
    | yes same ↦
        subst (λ x. Local m x (update s.pc i p x)) same
          (subst (Local m i) (sym (update_self s.pc i p)) (Move-Local_self mv (h i)))
    | no other ↦
        subst (Local m j) (sym (update_ne s.pc i j p other))
          (Move-Local_other (s.pc j) other mv (h j))
  ]

  gen_lem :
      (k i branch : ℕ) (m : Memory A E) (o : Ending A E)
      → i ≤ branch
      → branch < i + k
      → m.m_futures branch ≡ some o
      → gen k i branch m ≡ some (branch, o)
  unfolding gen
  gen_lem zero i branch m o from below has = absurd (omega arith)
  gen_lem (suc k) i branch m o from below has = elim (ℕ_discrete branch i) [
    | yes here ↦
        let hit : (branch == i) ≡ true = ground (arith, here) in
        let given : m.m_futures i ≡ some o = ap m.m_futures (sym here) ∙ has in
        rw (gen, hit, given) (ap (λ x. some (x, o)) (sym here))
    | no further ↦
        let miss : (branch == i) ≡ false = ground (arith, further) in
        rw (gen, miss) (gen_lem k (suc i) branch m o (omega (arith, further)) (omega arith) has)
  ]

module _ {A E : Type 0} (n : ℕ) where
  -- In any order of the accesses of `n` branches: once a branch has returned its result or thrown,
  -- the domain of the others is cancelled, `await_resume` gives that branch with its result, and no
  -- other branch has returned, is about to, or cancels the domain.
  pub select_lem :
      {s : System (Memory A E) (Pc A E)}
      → Reach Move n started s
      → (i j : ℕ) (o o' : Ending A E) → i < n
      → s.pc i ≡ Pc.returned o
      → (s.mem.cancelled ≡ true)
        × (await_resume n s.mem ≡ some (i, o))
        × ((s.pc j ≡ Pc.cancel o') ⊎ (s.pc j ≡ Pc.returns o') ⊎ (s.pc j ≡ Pc.returned o') → j ≡ i)
  unfolding await_resume
  select_lem {s} reach i j o o' lt over =
      let won : Local s.mem i (Pc.returned o) = subst (Local s.mem i) over (locals i) in
      (
        won.1,
        rw (await_resume, won.0) (gen_lem n 0 i s.mem o (omega arith) (omega arith) won.2),
        λ also. some-injective (sym (taken also) ∙ won.0),
      )
    where
      locals : Locals s
      locals = Reach-keeps Move n Locals (λ t k m p lt' mv. Move-Locals t k m p mv) reach (λ j. tt)

      taken :
          (s.pc j ≡ Pc.cancel o') ⊎ (s.pc j ≡ Pc.returns o') ⊎ (s.pc j ≡ Pc.returned o')
          → s.mem.m_complete_branch ≡ some j
      taken (inl e) = subst (Local s.mem j) e (locals j)
      taken (inr (inl e)) =
          let h : Local s.mem j (Pc.returns o') = subst (Local s.mem j) e (locals j) in h.0
      taken (inr (inr e)) =
          let h : Local s.mem j (Pc.returned o') = subst (Local s.mem j) e (locals j) in h.0
