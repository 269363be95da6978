-- ===== src/FileUtil/Free.antt =====
-- The count of live blocks over the functions of io/fileutil.c that duplicate a path.
use kiv_pc_sw.Prelude.{not, ◌+◌, if◌then◌else◌, length}
use kiv_pc_sw.Prelude.Text.{Text}
use kiv_pc_sw.Common.{Allocator, jalloc}
use kiv_pc_sw.Memory.{Live, count_up, jree}
use kiv_pc_sw.FileUtil.{FileSystem, fu_is_dir, fu_is_file, fu_path_exists}

unfoldable pub fu_can_write_parent_dir_count : Allocator → Text → Live → Live
fu_can_write_parent_dir_count m path c = if jalloc m (length path + 1) then jree (count_up c) else c

unfoldable pub fu_can_write_count : Allocator → FileSystem → Text → Live → Live
unfolding fu_is_dir fu_is_file fu_path_exists fu_can_write_parent_dir_count
fu_can_write_count m fs path c =
    if fu_is_dir fs path
    then c
    else if fu_is_file fs path
    then c
    else if not (fu_path_exists fs path)
    then fu_can_write_parent_dir_count m path c
    else c
