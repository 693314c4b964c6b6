-- ===== src/HashMap/Rehash.antt =====
-- `do_rehash`: the doubled table holds the same entries.
use mathlib.Core.Option
use native.Mathlib.Nat.{pow-suc}
use asco.Prelude.{
  ℕ, zero, suc, ◌+◌, ◌*◌, ◌^◌, ◌<◌, ◌≡◌, refl, ◌≢◌, ◌⊎◌, ◌↔◌, inl, inr, ap, sym, ◌∙◌, arith, update,
  some, true, false, count, count-le, count-zero, count_zero, count-suc, subst, dec_lt,
}
use asco.Prelude.Pigeonhole.{pigeonhole}
use asco.HashMap.Defs.{HashKey, Bucket, Table, probe, place, rehash_from, do_rehash}
use asco.HashMap.Inv.{Absent, Holds, Layout, Inv, is_filled}
use asco.HashMap.Search.{Free}
use asco.HashMap.Grow.{grown-Layout, grown-Holds, count-grown}
use asco.HashMap.Probe.{probe-lt, probe_injective}

-- Nothing has been taken out of the array.
abbrev IsFresh {ℓ} : {K V : Type ℓ} → ℕ → (ℕ → Bucket K V) → Type ℓ
IsFresh size b = (i : ℕ) → i < size → (b i ≡ Bucket.empty) ⊎ (is_filled (b i) ≡ true)

module _ {ℓ} {K V : Type ℓ} ⦃key : HashKey K⦄ (wide : ℕ) (k : K) (v : V) (b : ℕ → Bucket K V)
    (fits : (i : ℕ) → probe wide k i < wide) (lay : Layout wide b) (fresh : IsFresh wide b)
    (absent : Absent wide b k) where
  place_taken :
      (n i : ℕ)
      → is_filled (b (probe wide k i)) ≡ true
      → place wide k v (suc n) i b ≡ place wide k v n (i + 1) b
  unfolding place
  place_taken n i e = ground arith

  -- `place` puts the entry into the first empty bucket, if some bucket is empty.
  place-Free :
      (n i : ℕ)
      → i + n ≡ wide
      → ((l : ℕ) → l < i → is_filled (b (probe wide k l)) ≡ true)
      → ((m : ℕ) × Free wide k b m
          × (place wide k v n i b ≡ update b (probe wide k m) (Bucket.filled 0 k v)))
        ⊎ ((l : ℕ) → l < wide → is_filled (b (probe wide k l)) ≡ true)
  unfolding place
  place-Free zero i e taken = inr (λ l h. taken l (omega arith))
  place-Free (suc n) i e taken = elim (fresh (probe wide k i) (fits i)) [
    | inl gap ↦ inl (
      i,
      record {
        in_time = omega arith;
        open_slot = inl gap;
        no_gap = λ l h x. not_gap l (taken l h) x;
        absent = absent;
      },
      rw (gap, place),
    )
    | inr busy ↦ rw (place_taken n i busy) (
        place-Free n (i + 1) (omega arith) (λ l h. elim (dec_lt l i) [
          | yes lt ↦ taken l lt
          | no ge ↦ let same : l ≡ i = omega arith in rw same busy
        ]))
  ]
    where
      not_gap : (l : ℕ) → is_filled (b (probe wide k l)) ≡ true → b (probe wide k l) ≢ Bucket.empty
      not_gap l h x = cc (ap is_filled x)

module _ {ℓ} {K V : Type ℓ} ⦃key : HashKey K⦄ (t : Table K V) (inv : Inv t)
    (grows : inv.exponent < 61)
    (idle : (i rc : ℕ) (k : K) (v : V)
      → i < t.size
      → t.bucket i ≡ Bucket.filled rc k v
      → rc ≡ 0) where
  -- The new array holds the entries of the first `x` buckets of the old one.
  record Moved (x : ℕ) (b : ℕ → Bucket K V) : Type ℓ where
    layout : Layout (t.size * 2) b
    fresh : IsFresh (t.size * 2) b
    counted : count is_filled (t.size * 2) b ≡ count is_filled x t.bucket
    held : (k : K) (v : V) → Holds (t.size * 2) b k v ↔ Holds x t.bucket k v

  Moved-zero : Moved 0 (λ i. Bucket.empty)
  Moved-zero = record {
    layout = record {
      settled = λ i h. inl refl;
      reached = λ i rc k v h e. cc;
      unique = λ i j rc rc' k v v' hi hj e e'. cc;
    };
    fresh = λ i h. inl refl;
    counted =
        count-zero is_filled (t.size * 2) (λ i. Bucket.empty) (λ i. refl)
        ∙ sym (count_zero is_filled t.bucket);
    held = λ k v. ((λ h. absurd (nothing h)), (λ h. absurd (omega (arith, h.2))));
  }
    where
      nothing : {k : K} {v : V} → Holds (t.size * 2) (λ i. Bucket.empty) k v → ⊥
      nothing (i, rc, lt, e) = cc

  Moved-skip :
      (x : ℕ) (b : ℕ → Bucket K V) → Moved x b → is_filled (t.bucket x) ≡ false → Moved (suc x) b
  Moved-skip x b m e = record {
    layout = m.layout;
    fresh = m.fresh;
    counted = ground (arith, m.counted, count-suc is_filled x t.bucket);
    held = λ k v. (
      (λ h. let (i, rc, lt, q) = (m.held k v).0 h in (i, rc, omega arith, q)),
      (λ h. (m.held k v).1 (lower k v h)),
    );
  }
    where
      lower : (k : K) (v : V) → Holds (suc x) t.bucket k v → Holds x t.bucket k v
      lower k v (i, rc, lt, q) = elim (dec_lt i x) [
        | yes below ↦ (i, rc, below, q)
        | no ge ↦ let same : i ≡ x = omega arith in absurd (clash same)
      ]
        where
          clash : i ≡ x → ⊥
          clash same = let h : is_filled (t.bucket i) ≡ false = rw same e in cc (ap is_filled q)

  module _ (x : ℕ) (below : x < t.size) (b : ℕ → Bucket K V) (m : Moved x b) (k : K) (v : V)
      (e : t.bucket x ≡ Bucket.filled 0 k v) where
    new_key : Absent (t.size * 2) b k
    new_key i rc v' h q =
        let (j, rc', lt, q') = (m.held k v').0 (i, rc, h, q) in
        let same = inv.layout.unique j x rc' 0 k v' v (omega arith) below q' e in omega arith

    fits : (i : ℕ) → probe (t.size * 2) k i < t.size * 2
    fits i = probe-lt (t.size * 2) k i (omega arith)

    wide_power : t.size * 2 ≡ 2 ^ suc (suc inv.exponent)
    wide_power = ap (λ (s : ℕ). s * 2) inv.power ∙ sym (pow-suc 2 (suc inv.exponent))

    distinct :
        (i j : ℕ)
        → i < t.size * 2
        → j < t.size * 2
        → probe (t.size * 2) k i ≡ probe (t.size * 2) k j
        → i ≡ j
    distinct = rw wide_power (probe_injective (suc inv.exponent) k (omega (arith, inv.small)))

    not_all : ¬ ((l : ℕ) → l < t.size * 2 → is_filled (b (probe (t.size * 2) k l)) ≡ true)
    not_all all = omega (
      arith,
      m.counted,
      count-le is_filled x t.bucket,
      pigeonhole is_filled Bucket.empty refl (t.size * 2) (t.size * 2) b (probe (t.size * 2) k)
          (λ i _. fits i) distinct all,
    )

    join :
        (k' : K) (v' : V)
        → ((k ≡ k') × (v ≡ v')) ⊎ Holds (t.size * 2) b k' v'
        → Holds (suc x) t.bucket k' v'
    join k' v' (inl (ek, ev)) =
        (x, 0, omega arith, e ∙ ap (λ z. Bucket.filled 0 z v) ek ∙ ap (Bucket.filled 0 k') ev)
    join k' v' (inr old) = let (i, rc, lt, q) = (m.held k' v').0 old in (i, rc, omega arith, q)

    part :
        (k' : K) (v' : V)
        → Holds (suc x) t.bucket k' v'
        → ((k ≡ k') × (v ≡ v')) ⊎ Holds (t.size * 2) b k' v'
    part k' v' (i, rc, lt, q) = elim (dec_lt i x) [
      | yes under ↦ inr ((m.held k' v').1 (i, rc, under, q))
      | no ge ↦ inl (here (omega arith))
    ]
      where
        here : i ≡ x → (k ≡ k') × (v ≡ v')
        here same =
            let joined : Bucket.filled 0 k v ≡ Bucket.filled rc k' v' =
              sym e ∙ ap t.bucket (sym same) ∙ q in
            (cc, cc)

    Moved-grown :
        (r : ℕ)
        → Free (t.size * 2) k b r
        → Moved (suc x) (update b (probe (t.size * 2) k r) (Bucket.filled 0 k v))
    Moved-grown r f = record {
      layout = grown-Layout (t.size * 2) k v b r fits m.layout f;
      fresh = λ i h. ground (arith, m.fresh i h);
      counted = ground (
        arith,
        m.counted,
        count-grown (t.size * 2) k v b r fits m.layout f,
        count-suc is_filled x t.bucket,
        ap is_filled e,
      );
      held = λ k' v'. (
        (λ h. join k' v' ((grown-Holds (t.size * 2) k v b r fits m.layout f k' v').0 h)),
        (λ h. (grown-Holds (t.size * 2) k v b r fits m.layout f k' v').1 (part k' v' h)),
      );
    }

    Moved-place : Moved (suc x) (place (t.size * 2) k v (t.size * 2) 0 b)
    Moved-place =
        elim (place-Free (t.size * 2) k v b fits m.layout m.fresh new_key (t.size * 2) 0
          (omega arith) (λ l h. absurd (omega arith))) [
            | inl (r, f, q) ↦ rw q (Moved-grown r f)
            | inr all ↦ absurd (not_all all)
          ]

  -- The loop runs to its end, and has then moved every entry.
  rehash_from-Moved :
      (n x : ℕ) (b : ℕ → Bucket K V)
      → x + n ≡ t.size
      → Moved x b
      → (b' : ℕ → Bucket K V) × (rehash_from t n x b ≡ some b') × Moved t.size b'
  unfolding rehash_from
  rehash_from-Moved zero x b q m =
      let done : x ≡ t.size = omega arith in (b, refl, subst (λ z. Moved z b) done m)
  rehash_from-Moved (suc n) x b q m = elim (inv.layout.settled x (omega arith)) [
    | inl gap ↦
        rw (gap, rehash_from)
          (rehash_from-Moved n (x + 1) b (omega arith)
            (subst (λ z. Moved z b) (omega arith) (Moved-skip x b m (ap is_filled gap))))
    | inr (inl old) ↦
        rw (old, rehash_from)
          (rehash_from-Moved n (x + 1) b (omega arith)
            (subst (λ z. Moved z b) (omega arith) (Moved-skip x b m (ap is_filled old))))
    | inr (inr (rc, k, v, busy)) ↦
        let e = busy ∙ ap (λ c. Bucket.filled c k v) (idle x rc k v (omega arith) busy) in
        rw (e, rehash_from)
          (rehash_from-Moved n (x + 1) _ (omega arith) (
            subst (λ z. Moved z (place (t.size * 2) k v (t.size * 2) 0 b)) (omega arith)
              (Moved-place x (omega arith) b m k v e)))
  ]

  -- On a table in order with at most 2 ^ 61 buckets and no guard outstanding `do_rehash`
  -- returns: the table is twice as large and in order, and keeps its entries and its load.
  pub do_rehash_lem :
      (t' : Table K V) × (do_rehash t ≡ some t')
      × Inv t'
      × (t'.size ≡ t.size * 2)
      × (t'.load ≡ t.load)
      × ((k : K) (v : V) → Holds t'.size t'.bucket k v ↔ Holds t.size t.bucket k v)
  unfolding do_rehash
  do_rehash_lem =
      let (b, q, m) = rehash_from-Moved t.size 0 (λ i. Bucket.empty) (omega arith) Moved-zero in
      (
        record t { size = t.size * 2; bucket = b },
        ap (Option.map _) q,
        record {
          exponent = suc inv.exponent;
          power = ap (λ (s : ℕ). s * 2) inv.power ∙ sym (pow-suc 2 (suc inv.exponent));
          small = omega arith;
          layout = m.layout;
          counted = inv.counted ∙ sym m.counted;
        },
        refl,
        refl,
        m.held,
      )
