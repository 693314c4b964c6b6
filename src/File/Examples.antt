-- ===== src/File/Examples.antt =====
-- A file of ten bytes, open at its fourth.
use asco.Prelude.{◌≡◌, ◌<◌, ◌-◌, ◌^◌, refl, arith, true}
use asco.File.{File, ℤ, SeekMode, Ending, seek, sought}
use asco.File.Seek.{Defined, seek_lem}

abbrev at_four : File
at_four = record { m_valid = true; m_fptr = ℤ.pos 4 }

seek_lem_example :
    (Defined 4 (ℤ.negsuc 2) SeekMode.end
      → (seek at_four (ℤ.negsuc 2) SeekMode.end 10
          ≡ Ending.leaves (record at_four { m_fptr = ℤ.pos 7 }))
        × (7 < 2 ^ 63))
    × ((Defined 4 (ℤ.negsuc 2) SeekMode.end → ⊥)
        → seek at_four (ℤ.negsuc 2) SeekMode.end 10 ≡ Ending.overflowed)
seek_lem_example =
    seek_lem at_four 4 refl refl (omega arith) (ℤ.negsuc 2) SeekMode.end 10 refl (omega arith)

-- The lowest `std::ptrdiff_t`
lowest_run : seek at_four (ℤ.negsuc (2 ^ 63 - 1)) SeekMode.current 10 ≡ Ending.overflowed
unfolding seek sought
lowest_run = refl
