-- ===== src/Segment/Free.antt =====
-- The count of live blocks over cdsg_create and cdsg_free. dtsg_create and dtsg_free are the same.
use kiv_pc_sw.Common.{Allocator, jalloc, dynamic_array_initial_capacity}
use kiv_pc_sw.Memory.{Live, count_up, jree}
use kiv_pc_sw.Prelude.{if◌then◌else◌}

-- The struct is given back if its buffer is refused.
unfoldable pub cdsg_create_count : Allocator → Live → Live
cdsg_create_count m c =
    if jalloc m 24
    then (if jalloc m dynamic_array_initial_capacity
        then count_up (count_up c)
        else jree (count_up c))
    else c

-- The buffer, then the struct.
unfoldable pub cdsg_free_count : Live → Live
cdsg_free_count c = jree (jree c)
