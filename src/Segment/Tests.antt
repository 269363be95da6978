-- ===== src/Segment/Tests.antt =====
-- Appends to a full buffer, which has to grow first.
use kiv_pc_sw.Prelude.{◌≡◌, refl, true, [], ◌∷◌, arith}
use kiv_pc_sw.Segment.{ensure_capacity, app_b, app_bs}
use kiv_pc_sw.Segment.Grow.{Ensured, ensure_capacity-Ensured}
use kiv_pc_sw.Segment.Append.{Appended, app_b-Appended, app_bs_total}
use kiv_pc_sw.Samples.{generous, full_segment, full_segment-IsBuffer}

ensure_capacity_example : Ensured generous full_segment 3 (ensure_capacity generous full_segment 3)
ensure_capacity_example =
    ensure_capacity-Ensured generous full_segment 3 full_segment-IsBuffer (omega arith)

app_b_example : Appended generous full_segment (7 ∷ []) (app_b generous full_segment 7)
app_b_example = app_b-Appended generous full_segment 7 full_segment-IsBuffer

app_bs_total_example : (app_bs generous full_segment (7 ∷ 8 ∷ [])).0 ≡ true
app_bs_total_example =
    app_bs_total generous full_segment (7 ∷ 8 ∷ []) full_segment-IsBuffer (λ n. refl) (omega arith)
