-- ===== src/Channel/Fifo.antt =====
-- An open channel passes its values on in order and loses none.
use asco.Prelude.{
  ℕ, suc, ◌+◌, ◌<◌, ◌≡◌, refl, arith, ap, true, false, none, some, List, [], ◌∷◌, ◌++◌, length,
  length-append, lt→ltb, value, Bool, ◌&&◌, ◌==◌,
}
use asco.Channel.{Channel, release, send, receive, recv}

and_false : (x : Bool) → (x && false) ≡ false
and_false true = refl
and_false false = refl

module _ {ℓ} {T : Type ℓ} where
  -- An open channel with the values `q` and room for `b` more.
  abbrev pub holding : List T → ℕ → Channel T
  holding q b = record { closed = false; count_sem = length q; backpress_sem = b; queue = q }

module _ {ℓ} {T : Type ℓ} (capacity : ℕ) (q : List T) (b : ℕ) (v : T) where
  released : (n : ℕ) → n < capacity → release capacity n ≡ n + 1
  released n h = omega arith

  send_room :
      length q + suc b ≡ capacity
      → send capacity (holding q (suc b)) v ≡ some (value tt, holding (q ++ v ∷ []) b)
  unfolding send
  send_room h = rw (lt→ltb (length q) capacity (omega arith)) (
      ap
        (λ (n : ℕ). some (
          value tt,
          record { closed = false; count_sem = n; backpress_sem = b; queue = q ++ v ∷ [] },
        ))
        (omega (arith, length-append q (v ∷ []))))

  recv_value :
      length q + suc b ≡ capacity
      → recv capacity (holding (v ∷ q) b) ≡ some (some v, holding q (suc b))
  unfolding recv receive
  recv_value h =
      rw (and_false (suc (length q) == 0), and_false (length q == 0))
        (ap
          (λ (n : ℕ).
            some (
              some v,
              record { closed = false; count_sem = length q; backpress_sem = n; queue = q },
            ))
          (omega arith))

  pub channel_lem :
      length q + suc b ≡ capacity
      → (send capacity (holding q (suc b)) v ≡ some (value tt, holding (q ++ v ∷ []) b))
        × (recv capacity (holding (v ∷ q) b) ≡ some (some v, holding q (suc b)))
        × (send capacity (holding q 0) v ≡ none)
        × (recv capacity (holding {T = T} [] capacity) ≡ none)
  unfolding send recv
  channel_lem h = (send_room h, recv_value h, refl, refl)
