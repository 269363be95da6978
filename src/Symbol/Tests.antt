-- ===== src/Symbol/Tests.antt =====
-- Two symbols, one after the other.
use kiv_pc_sw.Prelude.{◌≡◌, refl, some, [], ◌∷◌, if◌then◌else◌}
use kiv_pc_sw.Prelude.Text.{codes, str_eq}
use kiv_pc_sw.Symbol.{SymbolTable, ensure_capacity, add, find, find_in}
use kiv_pc_sw.Symbol.Lookup.{entry, find-add}
use kiv_pc_sw.Samples.{generous, no_symbols}

abbrev one : SymbolTable
one = record no_symbols { symbols = entry (codes "a") 5 ∷ []; count = 1 }

find-add_example :
    find (add generous one (codes "b") 9).1 (codes "b")
    ≡ (if str_eq (codes "b") (codes "b") then some (entry (codes "b") 9) else find one (codes "b"))
unfolding find find_in add ensure_capacity str_eq
find-add_example = find-add generous one (codes "b") (codes "b") 9 refl refl

-- No place left.
abbrev packed : SymbolTable
packed = record one { capacity = 1 }
