-- ===== src/Timer/Sweep.antt =====
-- What one pass over an area wakes and what it leaves.
use asco.Prelude.{
  ℕ, ◌≤◌, ◌<◌, ◌≡◌, ◌≢◌, refl, sym, ap, arith, ◌↔◌, ◌⊎◌, inl, inr, true, false, List, [], ◌∷◌, ◌++◌,
  ltb, Bool-cases, subst,
}
use asco.Timer.{TimerId, Entry, contains, erase, sweep}
use asco.Timer.Ids.{Mem, contains-Mem, contains-not, erase-Mem}

-- The order of the ids: by time, and then by hash.
abbrev pub Before : TimerId → TimerId → Type 0
Before a b = (a.seq < b.seq) ⊎ ((a.seq ≡ b.seq) × (a.hash < b.hash))

abbrev pub AllBehind : TimerId → List Entry → Type 0
AllBehind id [] = Unit
AllBehind id (e ∷ es) = Before id e.id × AllBehind id es

-- The entries are in the order of their ids, no two of which are equal.
abbrev pub IsSorted : List Entry → Type 0
IsSorted [] = Unit
IsSorted (e ∷ es) = AllBehind e.id es × IsSorted es

-- The tokens `woken` are those of the entries that are not cancelled, all of which are due.
pub data Woken (now : ℕ) (removed : List TimerId) : List Entry → List ℕ → Type 0 where
  nobody : Woken now removed [] []
  awoken :
      {e : Entry} {es : List Entry} {w : List ℕ}
      → e.id.seq ≤ now
      → (Mem e.id removed → ⊥)
      → Woken now removed es w
      → Woken now removed (e ∷ es) (e.token ∷ w)
  cancelled :
      {e : Entry} {es : List Entry} {w : List ℕ}
      → Mem e.id removed
      → Woken now removed es w
      → Woken now removed (e ∷ es) w

abbrev pub AllAfter : ℕ → List Entry → Type 0
AllAfter now [] = Unit
AllAfter now (e ∷ es) = (now < e.id.seq) × AllAfter now es

abbrev pub ids : List Entry → List TimerId
ids [] = []
ids (e ∷ es) = e.id ∷ ids es

-- The first entry is not cancelled.
abbrev pub HeadKept : List TimerId → List Entry → Type 0
HeadKept removed [] = Unit
HeadKept removed (e ∷ es) = Mem e.id removed → ⊥

-- One pass over the entries `es`, with the cancelled ids `removed`: it goes over the entries `seen`.
pub record Swept (now : ℕ) (es : List Entry) (removed : List TimerId)
    (r : List ℕ × List Entry × List TimerId) : Type 0 where
  pub seen : List Entry
  pub parts : es ≡ seen ++ r.1
  pub wakes : Woken now removed seen r.0
  pub early : AllAfter now r.1
  pub kept : HeadKept removed r.1
  pub forgets : (id : TimerId) → Mem id r.2 ↔ (Mem id removed × (Mem id (ids seen) → ⊥))

all_after :
    (now : ℕ) (id : TimerId) (es : List Entry) → AllBehind id es → now < id.seq → AllAfter now es
all_after now id [] h early = tt
all_after now id (e ∷ es) (inl lt, h) early = (omega arith, all_after now id es h early)
all_after now id (e ∷ es) (inr same, h) early = (omega (arith, same.0), all_after now id es h early)

Before-differs : (a b : TimerId) → Before a b → b ≢ a
Before-differs a b (inl lt) e = omega (arith, ap (λ x. x.seq) e)
Before-differs a b (inr same) e = omega (arith, same.1, ap (λ x. x.hash) e)

behind-differs : (id : TimerId) (es : List Entry) → AllBehind id es → Mem id (ids es) → ⊥
behind-differs id [] h m = m
behind-differs id (e ∷ es) (lt, h) (inl same) = Before-differs id e.id lt same
behind-differs id (e ∷ es) (lt, h) (inr later) = behind-differs id es h later

behind_part :
    (id : TimerId) (xs ys : List Entry)
    → AllBehind id (xs ++ ys)
    → AllBehind id xs × AllBehind id ys
behind_part id [] ys h = (tt, h)
behind_part id (x ∷ xs) ys (lt, h) = let (l, r) = behind_part id xs ys h in ((lt, l), r)

-- An id that is erased makes no difference to entries behind it.
Woken-erase :
    (now : ℕ) (r : List TimerId) (id : TimerId) (seen : List Entry) (w : List ℕ)
    → AllBehind id seen
    → Woken now (erase r id) seen w
    → Woken now r seen w
Woken-erase now r id [] w h nobody = nobody
Woken-erase now r id (e ∷ es) w (lt, h) (awoken due not_in rest) =
    awoken due (λ m. not_in ((erase-Mem r id e.id).1 (m, Before-differs id e.id lt)))
      (Woken-erase now r id es _ h rest)
Woken-erase now r id (e ∷ es) w (lt, h) (cancelled m rest) =
    cancelled ((erase-Mem r id e.id).0 m).0 (Woken-erase now r id es w h rest)

HeadKept-erase :
    (r : List TimerId) (id : TimerId) (es : List Entry)
    → AllBehind id es
    → HeadKept (erase r id) es
    → HeadKept r es
HeadKept-erase r id [] h k = tt
HeadKept-erase r id (e ∷ es) (lt, h) k =
    λ m. k ((erase-Mem r id e.id).1 (m, Before-differs id e.id lt))

module _ (now : ℕ) (e : Entry) (es : List Entry) (removed : List TimerId)
    (behind : AllBehind e.id es) where
  stop-Swept :
      contains removed e.id ≡ false
      → now < e.id.seq
      → Swept now (e ∷ es) removed ([], e ∷ es, removed)
  stop-Swept kept lt = record {
    seen = [];
    parts = refl;
    wakes = nobody;
    early = (lt, all_after now e.id es behind lt);
    kept = contains-not removed e.id kept;
    forgets = λ id. (λ m. (m, λ n. n), λ p. p.0);
  }

  wake-Swept :
      (r : List ℕ × List Entry × List TimerId)
      → contains removed e.id ≡ false
      → e.id.seq ≤ now
      → Swept now es removed r
      → Swept now (e ∷ es) removed (e.token ∷ r.0, r.1, r.2)
  wake-Swept r kept due c = record {
    seen = e ∷ c.seen;
    parts = ap (λ xs. e ∷ xs) c.parts;
    wakes = awoken due (contains-not removed e.id kept) c.wakes;
    early = c.early;
    kept = c.kept;
    forgets = λ id. (
      λ m. (
        ((c.forgets id).0 m).0,
        λ n. elim n [
          | inl same ↦
              contains-not removed e.id kept
                (subst (λ x. Mem x removed) (sym same) ((c.forgets id).0 m).0)
          | inr later ↦ ((c.forgets id).0 m).1 later
        ],
      ),
      λ p. (c.forgets id).1 (p.0, λ n. p.1 (inr n)),
    );
  }

  drop-Swept :
      (r : List ℕ × List Entry × List TimerId)
      → contains removed e.id ≡ true
      → Swept now es (erase removed e.id) r
      → Swept now (e ∷ es) removed r
  drop-Swept r gone c =
      let (behind_seen, behind_left) =
        behind_part e.id c.seen r.1 (subst (AllBehind e.id) c.parts behind) in
      record {
        seen = e ∷ c.seen;
        parts = ap (λ xs. e ∷ xs) c.parts;
        wakes =
            cancelled (contains-Mem removed e.id gone)
              (Woken-erase now removed e.id c.seen r.0 behind_seen c.wakes);
        early = c.early;
        kept = HeadKept-erase removed e.id r.1 behind_left c.kept;
        forgets = λ id. (
          λ m.
              let m' = (erase-Mem removed e.id id).0 ((c.forgets id).0 m).0 in
              (
                m'.0,
                λ n. elim n [
                  | inl same ↦ m'.1 (sym same)
                  | inr later ↦ ((c.forgets id).0 m).1 later
                ],
              ),
          λ p.
              (c.forgets id).1 (
                (erase-Mem removed e.id id).1 (p.0, λ same. p.1 (inl (sym same))),
                λ n. p.1 (inr n),
              ),
        );
      }

-- One pass over an area whose entries are in the order of their ids goes over the first of them up to
-- one that is neither cancelled nor due, and leaves that one and all behind it, also cancelled ones; none
-- of these is due. Of those that it goes over it wakes, in order, the ones that are not cancelled, each of
-- which is due, and it forgets exactly their cancellations.
pub sweep-Swept :
    (now : ℕ) (es : List Entry) (removed : List TimerId)
    → IsSorted es
    → Swept now es removed (sweep now es removed)
unfolding sweep
sweep-Swept now [] removed s = record {
  seen = [];
  parts = refl;
  wakes = nobody;
  early = tt;
  kept = tt;
  forgets = λ id. (λ m. (m, λ n. n), λ p. p.0);
}
sweep-Swept now (e ∷ es) removed s = elim (Bool-cases (contains removed e.id)) [
  | inl gone ↦
      rw (sweep, gone)
        (drop-Swept now e es removed s.0 (sweep now es (erase removed e.id)) gone
          (sweep-Swept now es (erase removed e.id) s.1))
  | inr kept ↦ elim (Bool-cases (ltb now e.id.seq)) [
    | inl early ↦ rw (sweep, kept, early) (stop-Swept now e es removed s.0 kept (ground arith))
    | inr due ↦
        rw (sweep, kept, due)
          (wake-Swept now e es removed s.0 (sweep now es removed) kept (ground arith)
            (sweep-Swept now es removed s.1))
  ]
]
