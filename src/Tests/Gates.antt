-- ===== src/Tests/Gates.antt =====
-- Paths, the filter, the file tools and the guest's own check.
use Prim.Native.String.{count}
use corvus_node.Prelude.{
  eq_iff, String, ◌≡◌, ◌≢◌, ◌↔◌, ◌⊎◌, refl, true, false, not, ◌&&◌, ◌||◌, some, [], ◌∷◌, chars,
  join, strip, split, elem, ◌≤◌, All,
}
use corvus_node.Json.{get}
use corvus_node.Json.Text.{text_at}
use corvus_node.Identity.{operator_principal, is_operator}
use corvus_node.Protocol.{engine1}
use corvus_node.Tools.Paths.{workspace_relpath, text_of, is_nil}
use corvus_node.Tools.Paths.Resolve.{resolve, IsName}
use corvus_node.Tools.Paths.Below.{answer, workspace_relpath-answer, workspace_relpath-IsName}
use corvus_node.Policy.{allow, evaluate, launch_engine, visible_tools, is_file_tool}
use corvus_node.Policy.ToolCalls.{evaluate-tool_call_iff, elem-visible_tools, path_ok}
use corvus_node.Workspace.{target, resolves_under, child_path, host_file_write, write_max}
use corvus_node.Workspace.Confined.{Confined, host_file_write-Confined}
use corvus_node.Tests.Inputs.{write_call, file_system}

-- "a/.." is walked away before the name is taken.
relpath_run : workspace_relpath " /workspace/a/../b//c.txt " ≡ some "b/c.txt"
unfolding workspace_relpath join
relpath_run = refl

workspace_relpath-answer_example :
    workspace_relpath "/workspace/../etc" ≡ text_of (answer (strip (chars "/workspace/../etc")))
workspace_relpath-answer_example = workspace_relpath-answer "/workspace/../etc"

workspace_relpath-IsName_example :
    (resolve (strip (chars "/workspace/b")) ≡ chars "workspace" ∷ split 47 (chars "b"))
    × All IsName (split 47 (chars "b"))
unfolding workspace_relpath join
workspace_relpath-IsName_example = workspace_relpath-IsName "/workspace/b" "b" refl

evaluate-tool_call_iff_example :
    ((evaluate
        (launch_engine "a" ("file_write" ∷ []) ("/w" ∷ []) operator_principal)
        write_call).decision
      ≡ allow)
    ↔ ((engine1 ≡ engine1)
        × (is_operator operator_principal ≡ true)
        × (elem "file_write" ("file_write" ∷ []) ≡ true)
        × ((is_file_tool "file_write" ≡ false)
            ⊎ ((is_nil {A = String} ("/w" ∷ []) ≡ false)
                × (path_ok "file_write" (get "arguments" write_call.payload) ≡ true))))
unfolding text_at get
evaluate-tool_call_iff_example =
    evaluate-tool_call_iff "a" ("file_write" ∷ []) ("/w" ∷ []) operator_principal write_call refl

elem-visible_tools_example :
    elem "echo" (visible_tools (launch_engine "a" ("echo" ∷ []) [] operator_principal)) ≡ (
      elem "echo" ("echo" ∷ [])
      && (is_operator operator_principal
          && (not (is_file_tool "echo") || not (is_nil {A = String} []))))
elem-visible_tools_example = elem-visible_tools "a" ("echo" ∷ []) [] operator_principal "echo"

written : (host_file_write file_system "old" "/home/me" "/workspace/notes.txt" "new").1 ≢ "old"
unfolding host_file_write target workspace_relpath join resolves_under child_path
written e = cc ((eq_iff "new" "old").1 e)

host_file_write-Confined_example :
    (count "new" ≤ write_max)
    × ((path : String) × Confined file_system "old" "/home/me" "/workspace/notes.txt" path)
host_file_write-Confined_example =
    host_file_write-Confined file_system "old" "/home/me" "/workspace/notes.txt" "new" written
