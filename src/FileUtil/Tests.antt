-- ===== src/FileUtil/Tests.antt =====
-- A file of two lines, the second without a newline.
use kiv_pc_sw.Prelude.{ℕ, ◌≡◌, refl, List, [], ◌∷◌}
use kiv_pc_sw.Prelude.Text.{codes}
use kiv_pc_sw.Common.{jalloc, jealloc}
use kiv_pc_sw.FileUtil.{read_chars, fu_getline, read_lines, file_lines}
use kiv_pc_sw.FileUtil.Lines.{concat, AreLines, file_lines-concat}
use kiv_pc_sw.Samples.{generous}

abbrev two_lines : List ℕ
two_lines = codes "NOP\nHALT"

file_lines_example :
    (concat (file_lines generous two_lines) ≡ two_lines) × AreLines (file_lines generous two_lines)
file_lines_example = file_lines-concat generous two_lines (λ n. refl)

lines : file_lines generous two_lines ≡ codes "NOP\n" ∷ codes "HALT" ∷ []
unfolding file_lines read_lines fu_getline read_chars jalloc jealloc
lines = refl
