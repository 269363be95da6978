-- ===== src/Symbol.antt =====
-- data_structures/symbol.c: the symbol table, an array of names and addresses that grows.
-- A returned pointer to a symbol is the symbol itself; its callers only read it.
pub mod Lookup
pub mod Room
pub mod Free
mod Tests
use kiv_pc_sw.Prelude.{
  ℕ, zero, suc, ◌+◌, ◌*◌, ◌%◌, ◌^◌, Bool, true, false, List, [], ◌∷◌, ◌++◌, Option, none, some, ltb,
  leb, ◌==◌, if◌then◌else◌,
}
use kiv_pc_sw.Prelude.Text.{Text, str_eq}
use kiv_pc_sw.Common.{
  Allocator, jalloc, jealloc, dynamic_array_initial_capacity, dynamic_array_growth_multiplier,
}

pub record Symbol : Type 0 where
  pub name : Text
  pub address : ℕ

-- sizeof (struct Symbol): the name buffer and the address.
abbrev pub symbol_size : ℕ
symbol_size = 260

-- `symbols` are the first `count` entries of the array, the ones in use.
pub record SymbolTable : Type 0 where
  pub symbols : List Symbol
  pub count : ℕ
  pub capacity : ℕ

unfoldable pub init : Allocator → Option SymbolTable
init m =
    if jalloc m (dynamic_array_initial_capacity * symbol_size)
    then some (record { symbols = []; count = 0; capacity = dynamic_array_initial_capacity })
    else none

-- 24 bytes for the struct, then its insides.
unfoldable pub create : Allocator → Option SymbolTable
create m = if jalloc m 24 then init m else none

-- The while loop over `new_cap`, with fuel.
unfoldable pub grow_capacity : ℕ → ℕ → ℕ → ℕ
grow_capacity zero new_cap req = new_cap
grow_capacity (suc fuel) new_cap req =
    let rest = grow_capacity fuel (new_cap * dynamic_array_growth_multiplier % 2 ^ 64) req in
    if ltb new_cap req then rest else new_cap

unfoldable pub ensure_capacity : Allocator → SymbolTable → ℕ → Bool × SymbolTable
ensure_capacity m table additional_symbols =
    if additional_symbols == 0
    then (true, table)
    else if leb ((table.count + additional_symbols) % 2 ^ 64) table.capacity
    then (true, table)
    else let start =
        if table.capacity == 0 then dynamic_array_initial_capacity else table.capacity in
      let new_cap = grow_capacity 64 start ((table.count + additional_symbols) % 2 ^ 64) in
      if jealloc m (new_cap * symbol_size % 2 ^ 64)
      then (true, record table { capacity = new_cap })
      else (false, table)

-- The added symbol, or none on failure, and the table.
unfoldable pub add : Allocator → SymbolTable → Text → ℕ → Option Symbol × SymbolTable
add m table name address =
    let (done, table') = ensure_capacity m table 1 in
    let symbol : Symbol = record { name = name; address = address } in
    if done
    then (
      some symbol,
      record table' { symbols = table'.symbols ++ (symbol ∷ []); count = table'.count + 1 },
    )
    else (none, table')

-- The loop over the array.
unfoldable pub find_in : List Symbol → Text → Option Symbol
find_in [] name = none
find_in (symbol ∷ symbols) name =
    if str_eq symbol.name name then some symbol else find_in symbols name

unfoldable pub find : SymbolTable → Text → Option Symbol
find table name = find_in table.symbols name
