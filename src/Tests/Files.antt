-- ===== src/Tests/Files.antt =====
-- The guest's file tools on a disk that is the text of its one file.
use Prim.Native.String.{count}
use corvus_node.Prelude.{String, ◌≡◌, ◌≢◌, ◌≤◌, refl, none, eq_iff, strip, join}
use corvus_node.Json.{get, get_or, str, end, field}
use corvus_node.Json.Text.{text_at}
use corvus_node.Tools.Paths.{workspace_relpath}
use corvus_node.Workspace.{done, write_max, child_path, is_relative_to, failure}
use corvus_node.Tools.Files.{
  file_read, file_write, resolve_under_workspace, IsUnder, file_write-IsUnder,
}
use corvus_node.Tests.Inputs.{file_system, arguments}

disk_changes : (file_write file_system none "old" arguments).1 ≢ "old"
unfolding file_write resolve_under_workspace workspace_relpath join strip child_path is_relative_to
    text_at get_or get
disk_changes e = cc ((eq_iff "hi" "old").1 e)

file_write-IsUnder_example :
    (count (text_at "content" arguments) ≤ write_max)
    × ((target : String) × IsUnder file_system none "old" (text_at "path" arguments) target)
file_write-IsUnder_example = file_write-IsUnder file_system none "old" arguments disk_changes

-- A path outside of the workspace is refused.
escape_run :
    file_read file_system none "old" (field "path" (str "/workspace/../etc") end)
    ≡ done (failure "path_escape" "/workspace/../etc")
unfolding file_read resolve_under_workspace workspace_relpath join strip text_at
escape_run = refl
