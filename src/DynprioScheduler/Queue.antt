-- ===== src/DynprioScheduler/Queue.antt =====
-- What the scheduler relies on of std::priority_queue: `pop` takes out the entry that `top` shows, and that is
-- not less than any other in the order that the queue was given.
use asco.Prelude.{
  ℕ, ◌+◌, ◌≤◌, ◌≡◌, refl, arith, ap, subst, ◌∙◌, Bool, false, to_nat, Option, none, some,
  some-injective, List, [], ◌∷◌, leb, leb→le, if◌then◌else◌, Bool-cases, inl, inr,
}
use asco.DynprioScheduler.{Execution, less}

abbrev pub occurrences : (Execution → Bool) → List Execution → ℕ
occurrences w [] = 0
occurrences w (e ∷ q) = to_nat (w e) + occurrences w q

-- `p` is at most each priority of the queue.
abbrev pub IsLeast : ℕ → List Execution → Type 0
IsLeast p [] = Unit
IsLeast p (e ∷ q) = (p ≤ e.priority) × IsLeast p q

-- `e` is not less than any of the queue, in this order.
abbrev pub IsTop : (order : Execution → Execution → Bool) → Execution → List Execution → Type 0
IsTop order e [] = Unit
IsTop order e (f ∷ q) = (order e f ≡ false) × IsTop order e q

pub record IsPriorityQueue (order : Execution → Execution → Bool)
    (top_pop : List Execution → Option (Execution × List Execution)) : Type 0 where
  pub empty : top_pop [] ≡ none
  pub found :
      (e : Execution) (q : List Execution)
      → (f : Execution) × (rest : List Execution) × (top_pop (e ∷ q) ≡ some (f, rest))
  pub kept :
      (q : List Execution) (e : Execution) (rest : List Execution)
      → top_pop q ≡ some (e, rest)
      → (w : Execution → Bool) → occurrences w q ≡ occurrences w (e ∷ rest)
  pub top_most :
      (q : List Execution) (e : Execution) (rest : List Execution)
      → top_pop q ≡ some (e, rest)
      → IsTop order e rest

-- In the scheduler's order, what is on top has the least number.
pub IsTop-IsLeast : (e : Execution) (q : List Execution) → IsTop less e q → IsLeast e.priority q
IsTop-IsLeast e [] h = tt
IsTop-IsLeast e (f ∷ q) h = (ground (arith, h.0), IsTop-IsLeast e q h.1)

IsLeast-IsTop : (e : Execution) (q : List Execution) → IsLeast e.priority q → IsTop less e q
IsLeast-IsTop e [] h = tt
IsLeast-IsTop e (f ∷ q) h = (ground (arith, h.0), IsLeast-IsTop e q h.1)

-- A queue without any order, from which the least entry is selected.
unfoldable pub select : Execution → List Execution → Execution × List Execution
select x [] = (x, [])
select x (y ∷ q) =
    let (e, rest) = select x q in if leb e.priority y.priority then (e, y ∷ rest) else (y, e ∷ rest)

unfoldable pub top_pop : List Execution → Option (Execution × List Execution)
top_pop [] = none
top_pop (x ∷ q) = some (select x q)

IsLeast-le : (p p' : ℕ) (q : List Execution) → p ≤ p' → IsLeast p' q → IsLeast p q
IsLeast-le p p' [] h l = tt
IsLeast-le p p' (e ∷ q) h l = (omega arith, IsLeast-le p p' q h l.1)

select-kept :
    (w : Execution → Bool) (x : Execution) (q : List Execution)
    → occurrences w (x ∷ q) ≡ occurrences w ((select x q).0 ∷ (select x q).1)
unfolding select
select-kept w x [] = refl
select-kept w x (y ∷ q) = elim (Bool-cases (leb (select x q).0.priority y.priority)) [
  | inl below ↦ rw below (omega (arith, select-kept w x q))
  | inr above ↦ rw above (omega (arith, select-kept w x q))
]

select-IsLeast :
    (x : Execution) (q : List Execution) → IsLeast (select x q).0.priority (select x q).1
unfolding select
select-IsLeast x [] = tt
select-IsLeast x (y ∷ q) = elim (Bool-cases (leb (select x q).0.priority y.priority)) [
  | inl below ↦ rw below (leb→le _ _ below, select-IsLeast x q)
  | inr above ↦
      let lt : y.priority ≤ (select x q).0.priority = ground arith in
      rw above
        (lt, IsLeast-le y.priority (select x q).0.priority (select x q).1 lt (select-IsLeast x q))
]

top_pop-kept :
    (q : List Execution) (e : Execution) (rest : List Execution)
    → top_pop q ≡ some (e, rest)
    → (w : Execution → Bool) → occurrences w q ≡ occurrences w (e ∷ rest)
unfolding top_pop
top_pop-kept [] e rest h w = absurd cc
top_pop-kept (x ∷ q) e rest h w =
    select-kept w x q ∙ ap (λ r. occurrences w (r.0 ∷ r.1)) (some-injective h)

top_pop-IsLeast :
    (q : List Execution) (e : Execution) (rest : List Execution)
    → top_pop q ≡ some (e, rest)
    → IsLeast e.priority rest
unfolding top_pop
top_pop-IsLeast [] e rest h = absurd cc
top_pop-IsLeast (x ∷ q) e rest h =
    subst (λ r. IsLeast r.0.priority r.1) (some-injective h) (select-IsLeast x q)

pub top_pop-IsPriorityQueue : IsPriorityQueue less top_pop
unfolding top_pop
top_pop-IsPriorityQueue = record {
  empty = refl;
  found = λ e q. ((select e q).0, (select e q).1, refl);
  kept = top_pop-kept;
  top_most = λ q e rest h. IsLeast-IsTop e rest (top_pop-IsLeast q e rest h);
}
