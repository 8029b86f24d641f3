-- ===== src/Tests/Spinlocks.antt =====
-- The theorems on spin locks at a concrete processor.
use tugas_sistem_operasi.Base.{◌≡◌, refl, inl, some, true, false}
use tugas_sistem_operasi.Spinlock.{Cpu, acquired, acquire, release}
use tugas_sistem_operasi.Spinlock.Nest.{
  Same, Nesting, done, section, run, run-Same, free, mine, release-acquire,
}

-- Interrupts are on, and no section is open.
abbrev idle : Cpu
idle = record { iflag = true; ncli = 0; intena = false }

-- A section inside a section, and one behind them.
abbrev nested : Nesting
nested = section (section done done) (section done done)

run-Same_example : (d : Cpu) × (run nested idle ≡ some d) × Same idle d
run-Same_example = run-Same nested idle (inl refl)

release-acquire_example :
    (e f d : Cpu) × (acquire 3 free idle ≡ acquired (mine 3) e)
    × (run nested e ≡ some f)
    × (release 3 (mine 3) f ≡ some (free, d))
    × Same idle d
release-acquire_example = release-acquire 3 nested idle (inl refl)
