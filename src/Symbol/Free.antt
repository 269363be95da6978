-- ===== src/Symbol/Free.antt =====
-- The count of live blocks over symtab_create, symtab_deinit and symtab_free.
use kiv_pc_sw.Prelude.{◌*◌, if◌then◌else◌}
use kiv_pc_sw.Common.{Allocator, jalloc, dynamic_array_initial_capacity}
use kiv_pc_sw.Memory.{Live, count_up, jree}
use kiv_pc_sw.Symbol.{symbol_size}

-- The struct is given back if symtab_init fails.
unfoldable pub symtab_create_count : Allocator → Live → Live
symtab_create_count m c =
    if jalloc m 24
    then (if jalloc m (dynamic_array_initial_capacity * symbol_size)
        then count_up (count_up c)
        else jree (count_up c))
    else c

unfoldable pub symtab_deinit_count : Live → Live
symtab_deinit_count c = jree c

unfoldable pub symtab_free_count : Live → Live
unfolding symtab_deinit_count
symtab_free_count c = jree (symtab_deinit_count c)
