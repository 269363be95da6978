-- ===== src/Symbol/Room.antt =====
-- symtab_add keeps the symbols within the array.
use kiv_pc_sw.Prelude.{ℕ, ◌+◌, ◌≤◌, ◌≡◌, Bool, true, length, if◌then◌else◌, ◌==◌}
use kiv_pc_sw.Prelude.Text.{Text}
use kiv_pc_sw.Common.{dynamic_array_initial_capacity}
use kiv_pc_sw.Symbol.{Symbol, SymbolTable}

-- The count is that of the symbols, and the array has room for them.
pub record HasRoom (table : SymbolTable) : Type 0 where
  pub counted : length table.symbols ≡ table.count
  pub room : table.count ≤ table.capacity

-- The capacity that growing starts from.
abbrev first_capacity : ℕ → ℕ
first_capacity capacity = if capacity == 0 then dynamic_array_initial_capacity else capacity

-- What ensure_capacity does for one more symbol.
record Ensured (table : SymbolTable) (r : Bool × SymbolTable) : Type 0 where
  symbols : r.1.symbols ≡ table.symbols
  count : r.1.count ≡ table.count
  larger : table.capacity ≤ r.1.capacity
  room : r.0 ≡ true → table.count + 1 ≤ r.1.capacity
