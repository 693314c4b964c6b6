-- ===== src/RingQueue/Create.antt =====
-- `create` makes an empty queue.
use native.Mathlib.Nat.{mod-eq_of_lt}
use asco.Prelude.{ℕ, ◌≡◌, refl, arith, sym, []}
use asco.RingQueue.Defs.{create}
use asco.RingQueue.Order.{Inv, contents, queued}

module _ {ℓ} {T : Type ℓ} (cap : ℕ) where
  unfoldable pub new-Inv : Inv (create T cap)
  new-Inv = record {
    used = 0;
    room = omega arith;
    head_fits = omega arith;
    tail_is = sym (mod-eq_of_lt (omega arith));
    in_use = λ j h. absurd (omega arith);
    free = λ j h fits. refl;
  }

  -- A new queue is in order and has no values.
  pub create_lem : (inv : Inv (create T cap)) × (contents (create T cap) inv ≡ [])
  unfolding queued new-Inv
  create_lem = (new-Inv, refl)
