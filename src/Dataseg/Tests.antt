-- ===== src/Dataseg/Tests.antt =====
-- Appends to a data segment of two bytes.
use kiv_pc_sw.Prelude.{◌≡◌, refl, [], ◌∷◌, take}
use kiv_pc_sw.Common.{jealloc}
use kiv_pc_sw.Segment
use kiv_pc_sw.Segment.{Segment}
use kiv_pc_sw.Dataseg.{app_dw_n, app_dw_loop, app_dw}
use kiv_pc_sw.Samples.{generous, full_segment}

-- 2 DUP(9)
dwords_kept :
    take 10 (app_dw_n generous full_segment 9 2).1.bytes
    ≡ 1 ∷ 2 ∷ 9 ∷ 0 ∷ 0 ∷ 0 ∷ 9 ∷ 0 ∷ 0 ∷ 0 ∷ []
unfolding app_dw_n app_dw_loop app_dw Segment.app_bs Segment.ensure_capacity Segment.next_capacity
    Segment.grow_capacity jealloc
dwords_kept = refl
