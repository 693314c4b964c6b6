-- ===== src/HashMap/Insert.antt =====
-- `do_insert`: what it returns and what the table holds afterwards.
use native.Mathlib.Nat.{mod-eq_of_lt}
use asco.Prelude.{
  ℕ, ◌+◌, ◌*◌, ◌≤◌, ◌<◌, ◌≡◌, refl, ◌⊎◌, inl, inr, ◌↔◌, arith, Option, some, update, update_twice,
  true, Expected, value, unexpected, Bool-cases,
}
use asco.HashMap.Grow.{grown-Layout, grown-Holds, count-grown}
use asco.Prelude.Pigeonhole.{pigeonhole}
use asco.Murmur.{u64}
use asco.HashMap.Errors.{InsertFailed}
use asco.HashMap.Defs.{
  HashKey, Bucket, Table, Search, halted, probe, search_slot, finish_insert, do_insert, is_loaded,
}
use asco.HashMap.Inv.{Absent, Holds, Inv, is_filled, size-le}
use asco.HashMap.Search.{Free, Ends, repeated, free, full, search_slot-Ends}
use asco.HashMap.Probe.{probe-lt, probe_injective}

module _ {ℓ} {K V : Type ℓ} ⦃key : HashKey K⦄ (t : Table K V) (k : K) (v : V) where
  -- The results of `do_insert` on a table that no other call is working on.
  pub data Inserted : Option (Expected (Unit {0}) InsertFailed × Table K V) → Type ℓ where
    needs_rehash :
        3 * t.size ≤ 5 * t.load → Inserted (some (unexpected InsertFailed.rehash_needed, t))
    key_repeated :
        5 * t.load < 3 * t.size
        → (old : V) → Holds t.size t.bucket k old
        → Inserted (some (unexpected InsertFailed.key_repeated, t))
    inserted :
        5 * t.load < 3 * t.size
        → Absent t.size t.bucket k
        → (t' : Table K V) → t'.size ≡ t.size
        → t'.load ≡ t.load + 1
        → Inv t'
        → ((k' : K) (v' : V)
            → Holds t'.size t'.bucket k' v' ↔ (((k ≡ k') × (v ≡ v')) ⊎ Holds t.size t.bucket k' v'))
        → Inserted (some (value tt, t'))

  module _ (inv : Inv t) (room : 5 * t.load < 3 * t.size) where
    fits : (i : ℕ) → probe t.size k i < t.size
    fits i = probe-lt t.size k i (omega arith)

    distinct : (i j : ℕ) → i < t.size → j < t.size → probe t.size k i ≡ probe t.size k j → i ≡ j
    distinct = rw inv.power (probe_injective inv.exponent k (omega (arith, inv.small)))

    not_all : ¬ ((l : ℕ) → l < t.size → is_filled (t.bucket (probe t.size k l)) ≡ true)
    not_all all = omega (
      arith,
      inv.counted,
      pigeonhole is_filled Bucket.empty refl t.size t.size t.bucket (probe t.size k) (λ i _. fits i)
          distinct all,
    )

    grow_load : u64 (t.load + 1) ≡ t.load + 1
    grow_load = mod-eq_of_lt (omega (arith, size-le inv))

    placed-Inserted :
        (m : ℕ)
        → Free t.size k t.bucket m
        → Inserted (
            finish_insert t k v (
              halted
                (update t.bucket (probe t.size k m) Bucket.constructing)
                (some (probe t.size k m))))
    unfolding finish_insert
    placed-Inserted m f =
        rw
          (
            update_twice t.bucket (probe t.size k m) Bucket.constructing (Bucket.filled 0 k v),
            grow_load,
          )
          (inserted room f.absent _ refl refl
            (record {
              exponent = inv.exponent;
              power = inv.power;
              small = inv.small;
              layout = grown-Layout t.size k v t.bucket m fits inv.layout f;
              counted =
                  omega (arith, inv.counted, count-grown t.size k v t.bucket m fits inv.layout f);
            })
            (grown-Holds t.size k v t.bucket m fits inv.layout f))

    finish-Inserted : (s : Search K V) → Ends t.size k t.bucket s → Inserted (finish_insert t k v s)
    unfolding finish_insert
    finish-Inserted s (repeated i rc old lt e) = key_repeated room old (i, rc, lt, e)
    finish-Inserted s (free m f) = placed-Inserted m f
    finish-Inserted s (full all) = absurd (not_all all)

  -- On a table in order `do_insert` asks for a rehash when the load is at least 0.6, and else
  -- reports a key that the table has, or adds the entry and counts it; it never runs into
  -- `std::unreachable` and never asks for a retry, and the table stays in order.
  pub do_insert-Inserted : Inv t → Inserted (do_insert t k v)
  unfolding do_insert
  do_insert-Inserted inv = elim (Bool-cases (is_loaded t)) [
    | inl crowded ↦ rw crowded (needs_rehash (ground arith))
    | inr room ↦ rw room (
        finish-Inserted inv (ground arith) (search_slot t.size k t.size 0 t.bucket) (
          search_slot-Ends t.size k t.bucket inv.layout (fits inv (ground arith))
            (distinct inv (ground arith))))
  ]
