-- ===== src/RingQueue/Send.antt =====
-- `try_send`: the value goes behind the others, unless the ring is full.
use native.Mathlib.Nat.{add-mod_right, mod-eq_of_lt}
use asco.Prelude.{
  ℕ, ◌+◌, ◌%◌, ◌<◌, ◌≡◌, refl, ◌≢◌, inl, inr, arith, ap, sym, ◌∙◌, List, [], ◌∷◌, ◌++◌, append-nil,
  Bool, true, false, Option, some, update, update_ne, update_self, dec_lt, ◌==◌, ==_iff, Bool-cases,
  subst,
}
use asco.Prelude.Cycle.{apart}
use asco.RingQueue.Defs.{Slot, Storage, SendResult, next, try_send}
use asco.RingQueue.Order.{
  Inv, IsUsed, contents, queued, queued-agree, queued-append, value_of, after,
}

module _ {ℓ} {T : Type ℓ} (s : Storage T) (v : T) where
  -- The results of `try_send` on a storage that no other call is working on.
  pub data Sent (inv : Inv s) (throws : Bool) : Option (SendResult × Storage T) → Type ℓ where
    full : inv.used + 1 ≡ s.size → Sent inv throws (some (SendResult.refused, s))
    stored :
        throws ≡ false
        → (s' : Storage T) (inv' : Inv s') → s'.size ≡ s.size
        → contents s' inv' ≡ contents s inv ++ v ∷ []
        → Sent inv throws (some (SendResult.sent, s'))
    skipped :
        throws ≡ true
        → (s' : Storage T) (inv' : Inv s') → s'.size ≡ s.size
        → contents s' inv' ≡ contents s inv
        → Sent inv throws (some (SendResult.thrown, s'))

  module _ (inv : Inv s) where
    tail_next : next s s.tail ≡ (s.head + (inv.used + 1)) % s.size
    tail_next = rw (inv.tail_is) (after s.size s.head inv.used)

    home : s.head ≡ (s.head + 0) % s.size
    home = sym (ap (λ (x : ℕ). x % s.size) (omega arith) ∙ mod-eq_of_lt inv.head_fits)

    is_full : (next s s.tail ≡ s.head) → inv.used + 1 ≡ s.size
    is_full e = elim (dec_lt (inv.used + 1) s.size) [
      | yes room ↦ absurd (
          omega (
            arith,
            apart s.size s.head (inv.used + 1) 0 inv.head_fits room (omega arith)
                (sym tail_next ∙ e ∙ home),
          ))
      | no crowded ↦ omega (arith, inv.room)
    ]

    full_iff : inv.used + 1 ≡ s.size → next s s.tail ≡ s.head
    full_iff e =
        tail_next
        ∙ ap (λ (k : ℕ). (s.head + k) % s.size) e
        ∙ add-mod_right s.head s.size
        ∙ mod-eq_of_lt inv.head_fits

    -- The storage with `x` in the slot at the tail.
    abbrev grown : Slot T → Storage T
    grown x = record s { slot = update s.slot s.tail x; tail = next s s.tail }

    grown_old :
        (x : Slot T) (j : ℕ)
        → j < s.size
        → j ≢ inv.used
        → (grown x).slot ((s.head + j) % s.size) ≡ s.slot ((s.head + j) % s.size)
    grown_old x j h ne = update_ne s.slot s.tail ((s.head + j) % s.size) x (λ e.
        ne (sym (apart s.size s.head inv.used j inv.head_fits inv.room h (sym inv.tail_is ∙ e))))

    grown_new : (x : Slot T) → (grown x).slot ((s.head + inv.used) % s.size) ≡ x
    grown_new x = rw (← inv.tail_is) (update_self s.slot s.tail x)

    module _ (x : Slot T) (lt : inv.used + 1 < s.size) (used : IsUsed x) where
      grown-Inv : Inv (grown x)
      grown-Inv = record {
        used = inv.used + 1;
        room = lt;
        head_fits = inv.head_fits;
        tail_is = tail_next;
        in_use = λ j h. elim (dec_lt j inv.used) [
          | yes old ↦
              subst IsUsed (sym (grown_old x j (omega arith) (λ e. omega arith))) (inv.in_use j old)
          | no new ↦
              let same : inv.used ≡ j = omega arith in
              subst (λ k. IsUsed ((grown x).slot ((s.head + k) % s.size))) same
                (subst IsUsed (sym (grown_new x)) used)
        ];
        free = λ j h fits. grown_old x j fits (λ e. omega arith) ∙ inv.free j (omega arith) fits;
      }

      grown-contents : contents (grown x) grown-Inv ≡ contents s inv ++ value_of x
      unfolding grown-Inv
      grown-contents =
          ap (λ (n : ℕ). queued s.size s.head (grown x).slot 0 n) (omega arith)
          ∙ queued-append s.size s.head (grown x).slot 0 inv.used
          ∙ ap
              (λ (xs : List T).
                xs ++ value_of ((grown x).slot ((s.head + (0 + inv.used)) % s.size)))
              (queued-agree s.size s.head s.head (grown x).slot s.slot 0 0 inv.used
                (λ j h. grown_old x (0 + j) (omega (arith, inv.room)) (λ e. omega arith)))
          ∙ ap (λ (y : Slot T). contents s inv ++ value_of y)
              (ap (λ (k : ℕ). (grown x).slot ((s.head + k) % s.size)) (omega arith) ∙ grown_new x)

    tail_free : s.slot s.tail ≡ Slot.empty
    tail_free = rw inv.tail_is (inv.free inv.used (omega arith) inv.room)

    has_room : (next s s.tail == s.head) ≡ false → inv.used + 1 < s.size
    has_room e = elim (dec_lt (inv.used + 1) s.size) [
      | yes lt ↦ lt
      | no ge ↦
          let crowded : (next s s.tail == s.head) ≡ true =
            (==_iff (next s s.tail) s.head).1 (full_iff (omega (arith, inv.room))) in
          absurd cc
    ]

    send_room :
        (throws : Bool)
        → (next s s.tail == s.head) ≡ false
        → inv.used + 1 < s.size
        → Sent inv throws (try_send s v throws)
    unfolding try_send
    send_room false not_full lt =
        rw (not_full, tail_free)
          (stored refl (grown (Slot.filled v)) (grown-Inv (Slot.filled v) lt (inl (v, refl))) refl
            (grown-contents (Slot.filled v) lt (inl (v, refl))))
    send_room true not_full lt =
        rw (not_full, tail_free)
          (skipped refl (grown Slot.exception) (grown-Inv Slot.exception lt (inr refl)) refl
            (grown-contents Slot.exception lt (inr refl) ∙ append-nil _))

  -- On a storage in order `try_send` returns: it refuses the value when as many slots as the
  -- capacity are in use, and else puts it behind the others, or, when its constructor throws,
  -- uses up a slot that holds no value; the storage stays in order.
  pub try_send-Sent : (inv : Inv s) (throws : Bool) → Sent inv throws (try_send s v throws)
  unfolding try_send
  try_send-Sent inv throws = elim (Bool-cases (next s s.tail == s.head)) [
    | inl crowded ↦ rw crowded (full (is_full inv ((==_iff (next s s.tail) s.head).0 crowded)))
    | inr room ↦ send_room inv throws room (has_room inv room)
  ]
