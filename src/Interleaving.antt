-- ===== src/Interleaving.antt =====
-- `n` threads over one shared memory: each step is one atomic access of one thread, and the
-- accesses are sequentially consistent. A thread is where it stands in the code, with the local
-- variables that are live there; a component gives the moves of a single thread.
pub mod Pair
use asco.Prelude.{ℕ, ◌<◌, update}

pub record System (M P : Type 0) : Type 0 where
  pub mem : M
  pub pc : ℕ → P

module _ {M P : Type 0} (Move : ℕ → M → P → M → P → Type 0) (n : ℕ) where
  -- An index from `n` on names no thread.
  pub data Step (s : System M P) : System M P → Type 0 where
    pick :
        (i : ℕ) {m : M} {p : P}
        → i < n
        → Move i s.mem (s.pc i) m p
        → Step s (record { mem = m; pc = update s.pc i p })

  pub data Reach (s : System M P) : System M P → Type 0 where
    start : Reach s s
    later : {t u : System M P} → Reach s t → Step t u → Reach s u

  -- What every move keeps holds in every reachable state.
  pub Reach-keeps :
      (Inv : System M P → Type 0)
      → ((s : System M P) (i : ℕ) (m : M) (p : P)
          → i < n
          → Move i s.mem (s.pc i) m p
          → Inv s
          → Inv (record { mem = m; pc = update s.pc i p }))
      → {s t : System M P} → Reach s t
      → Inv s
      → Inv t
  Reach-keeps Inv keep start h = h
  Reach-keeps Inv keep (later {t = t} r (pick i {m = m} {p = p} lt mv)) h =
      keep t i m p lt mv (Reach-keeps Inv keep r h)
