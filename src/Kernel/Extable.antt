-- ===== src/Kernel/Extable.antt =====
-- The table of src/kernel/core/extable.c: pairs of the address of an instruction that may fault and the
-- address to go on at. The table is the linker's, here the list of its pairs.
use exyde.Common.{ℕ, ◌==◌, if◌then◌else◌, Option, some, none, List, [], ◌∷◌}

unfoldable pub extable_lookup : ℕ → List (ℕ × ℕ) → Option ℕ
extable_lookup fault_rip [] = none
extable_lookup fault_rip ((rip, fixup) ∷ ps) =
    let rest = extable_lookup fault_rip ps in if rip == fault_rip then some fixup else rest
