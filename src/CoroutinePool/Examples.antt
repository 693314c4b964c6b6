-- ===== src/CoroutinePool/Examples.antt =====
-- A frame of 100 bytes.
use asco.Prelude.{arith, [], ◌∷◌}
use asco.CoroutinePool.{new_block}
use asco.CoroutinePool.Blocks.{Apart, runs, runs-Apart}

runs-Apart_example : Apart 63 0 (runs (new_block 1) (100 ∷ 3000 ∷ 2000 ∷ 40 ∷ []))
runs-Apart_example = runs-Apart (100 ∷ 3000 ∷ 2000 ∷ 40 ∷ []) (new_block 1) (omega arith)
