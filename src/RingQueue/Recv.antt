-- ===== src/RingQueue/Recv.antt =====
-- `try_recv`: the value at the front comes out, if there is one.
use native.Mathlib.Nat.{add-mod_right, mod-lt, mod-eq_of_lt}
use asco.Prelude.{
  ℕ, zero, suc, ◌+◌, ◌-◌, ◌%◌, ◌<◌, ◌≡◌, refl, inl, inr, arith, ap, sym, ◌∙◌, List, [], ◌∷◌, ◌++◌,
  Bool, true, false, Option, some, update, update_ne, update_self, dec_lt, ◌==◌, ==_iff, Bool-cases,
  subst,
}
use asco.Prelude.Cycle.{apart}
use asco.RingQueue.Defs.{Slot, Storage, RecvResult, next, try_recv}
use asco.RingQueue.Order.{Inv, IsUsed, contents, queued, queued-agree, value_of, from_next}

module _ {ℓ} {T : Type ℓ} where
  -- The results of `try_recv` on a storage that no other call is working on, whose values are `xs`.
  pub data Received (size : ℕ) (throws : Bool)
      : List T → Option (RecvResult T × Storage T) → Type ℓ where
    nothing :
        (s' : Storage T) (inv' : Inv s')
        → s'.size ≡ size
        → contents s' inv' ≡ []
        → Received size throws [] (some (RecvResult.nothing, s'))
    received :
        {x : T} {xs : List T}
        → throws ≡ false
        → (s' : Storage T) (inv' : Inv s') → s'.size ≡ size
        → contents s' inv' ≡ xs
        → Received size throws (x ∷ xs) (some (RecvResult.received x, s'))
    lost :
        {x : T} {xs : List T}
        → throws ≡ true
        → (s' : Storage T) (inv' : Inv s') → s'.size ≡ size
        → contents s' inv' ≡ xs
        → Received size throws (x ∷ xs) (some (RecvResult.thrown, s'))

module _ {ℓ} {T : Type ℓ} (s : Storage T) (inv : Inv s) where
  home : (s.head + 0) % s.size ≡ s.head
  home = ap (λ (x : ℕ). x % s.size) (omega arith) ∙ mod-eq_of_lt inv.head_fits

  is_empty : inv.used ≡ 0 → s.tail ≡ s.head
  is_empty e = inv.tail_is ∙ ap (λ (k : ℕ). (s.head + k) % s.size) e ∙ home

  has_value : (s.head == s.tail) ≡ false → 0 < inv.used
  has_value e = elim (dec_lt 0 inv.used) [
    | yes lt ↦ lt
    | no ge ↦
        let same : (s.head == s.tail) ≡ true =
          (==_iff s.head s.tail).1 (sym (is_empty (omega arith))) in
        absurd cc
  ]

  no_value : (s.head == s.tail) ≡ true → inv.used ≡ 0
  no_value e =
      apart s.size s.head inv.used 0 inv.head_fits inv.room (omega (arith, inv.room))
        (sym inv.tail_is ∙ sym ((==_iff s.head s.tail).0 e) ∙ sym home)

  -- The storage without the slot at the head.
  abbrev shrunk : Storage T
  shrunk = record s { slot = update s.slot s.head Slot.empty; head = next s s.head }

  module _ (some_used : 0 < inv.used) where
    shrunk_old :
        (j : ℕ)
        → j + 1 < s.size
        → shrunk.slot ((next s s.head + j) % s.size) ≡ s.slot ((s.head + (j + 1)) % s.size)
    shrunk_old j h =
        ap shrunk.slot (from_next s.size s.head j)
        ∙ update_ne s.slot s.head ((s.head + (j + 1)) % s.size) Slot.empty (λ e. absurd (
            omega (
              arith,
              apart s.size s.head (j + 1) 0 inv.head_fits h (omega arith) (sym e ∙ sym home),
            )))

    shrunk_last : (j : ℕ) → j + 1 ≡ s.size → shrunk.slot ((next s s.head + j) % s.size) ≡ Slot.empty
    shrunk_last j e =
        ap shrunk.slot (
          from_next s.size s.head j
          ∙ ap (λ (k : ℕ). (s.head + k) % s.size) e
          ∙ add-mod_right s.head s.size
          ∙ mod-eq_of_lt inv.head_fits)
        ∙ update_self s.slot s.head Slot.empty

    shrunk-Inv : Inv shrunk
    shrunk-Inv = record {
      used = inv.used - 1;
      room = omega (arith, inv.room);
      head_fits = mod-lt (s.head + 1) (omega (arith, inv.room));
      tail_is =
          inv.tail_is
          ∙ ap (λ (k : ℕ). (s.head + k) % s.size) (omega arith)
          ∙ sym (from_next s.size s.head (inv.used - 1));
      in_use = λ j h.
          subst IsUsed (sym (shrunk_old j (omega (arith, inv.room))))
            (inv.in_use (j + 1) (omega arith));
      free = λ j h fits. elim (dec_lt (j + 1) s.size) [
        | yes lt ↦ shrunk_old j lt ∙ inv.free (j + 1) (omega arith) lt
        | no last ↦ shrunk_last j (omega arith)
      ];
    }

    shrunk-contents : contents s inv ≡ value_of (s.slot s.head) ++ contents shrunk shrunk-Inv
    unfolding queued shrunk-Inv
    shrunk-contents =
        ap (λ (n : ℕ). queued s.size s.head s.slot 0 n) whole
        ∙ ap (λ (i : ℕ). value_of (s.slot i) ++ queued s.size s.head s.slot (0 + 1) (inv.used - 1))
            home
        ∙ ap (λ (xs : List T). value_of (s.slot s.head) ++ xs)
            (queued-agree s.size s.head (next s s.head) s.slot shrunk.slot (0 + 1) 0 (inv.used - 1)
              (λ j h.
                ap (λ (k : ℕ). s.slot ((s.head + k) % s.size)) (omega arith)
                ∙ sym (shrunk_old (0 + j) (omega (arith, inv.room)))))
      where
        whole : inv.used ≡ suc (inv.used - 1)
        whole = omega arith

    shrunk-used : shrunk-Inv.used + 1 ≡ inv.used
    unfolding shrunk-Inv
    shrunk-used = omega arith

  no_contents : inv.used ≡ 0 → contents s inv ≡ []
  unfolding queued
  no_contents e = ap (queued s.size s.head s.slot 0) e

  head_used : 0 < inv.used → IsUsed (s.slot s.head)
  head_used h = subst (λ (i : ℕ). IsUsed (s.slot i)) home (inv.in_use 0 h)

  recv_value :
      (throws : Bool) (n : ℕ) (pos : 0 < inv.used)
      → (s.head == s.tail) ≡ false
      → (v : T) → s.slot s.head ≡ Slot.filled v
      → Received s.size throws (contents s inv) (try_recv (suc n) s throws)
  unfolding try_recv
  recv_value false n pos left v e =
      rw (shrunk-contents pos, left, e) (received refl shrunk (shrunk-Inv pos) refl refl)
  recv_value true n pos left v e =
      rw (shrunk-contents pos, left, e) (lost refl shrunk (shrunk-Inv pos) refl refl)

module _ {ℓ} {T : Type ℓ} where
  -- On a storage in order `try_recv` returns, in one round more than there are slots in use: it
  -- takes the value at the front, whose move may throw, or finds none; the storage stays in
  -- order.
  pub try_recv-Received :
      (s : Storage T) (inv : Inv s) (throws : Bool) (n : ℕ)
      → inv.used < n
      → Received s.size throws (contents s inv) (try_recv n s throws)
  unfolding try_recv
  try_recv-Received s inv throws zero h = absurd (omega arith)
  try_recv-Received s inv throws (suc n) h = elim (Bool-cases (s.head == s.tail)) [
    | inl drained ↦
        rw (drained, no_contents s inv (no_value s inv drained))
          (nothing s inv refl (no_contents s inv (no_value s inv drained)))
    | inr left ↦
        let pos = has_value s inv left in
        elim (head_used s inv pos) [
          | inl (v, e) ↦ recv_value s inv throws n pos left v e
          | inr e ↦
              rw (shrunk-contents s inv pos, left, e)
                (try_recv-Received (shrunk s inv) (shrunk-Inv s inv pos) throws n
                  (omega (arith, shrunk-used s inv pos)))
        ]
  ]
