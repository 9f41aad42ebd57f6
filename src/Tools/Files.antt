-- ===== src/Tools/Files.antt =====
-- src/corvus_node/tools/files.py: the guest's own file tools, below its workspace. An error of the operating
-- system is not caught.
use Prim.Native.String.{count, len}
use corvus_node.Prelude.{
  ℕ, String, ap, sym, ◌≡◌, ◌≢◌, ◌≤◌, refl, true, Option, none, some, inl, inr, Option-cases, arith,
  ltb, not, if◌then◌else◌,
}
use corvus_node.Prelude.Int.{pos}
use corvus_node.Json.{boolean, num, str, Fields, end, field}
use corvus_node.Json.Text.{text_at}
use corvus_node.Tools.Paths.{workspace_relpath}
use corvus_node.Workspace.{
  FileSystem, OsResult, done, os_error, child_path, is_relative_to, failure, too_large, read_max,
  write_max,
}

-- A path under the workspace, a `PathEscape`, or an `OSError`.
pub data Located : Type 0 where
  at : String → Located
  escape : Located
  unresolved : String → Located

-- `CORVUS_NODE_WORKSPACE`, if it is set.
unfoldable pub workspace_root : Option String → String
workspace_root none = "/workspace"
workspace_root (some raw) = raw

module _ (fs : FileSystem) (env : Option String) where
  open fs use {Disk}

  abbrev under_base : String → OsResult String → Located
  under_base base (os_error e) = unresolved e
  under_base base (done target) = if is_relative_to target base then at target else escape

  abbrev below : Disk → String → OsResult String → Located
  below disk rel (os_error e) = unresolved e
  below disk rel (done base) = under_base base (fs.resolve disk (child_path base rel))

  unfoldable pub resolve_under_workspace : Disk → String → Located
  unfolding workspace_root is_relative_to
  resolve_under_workspace disk raw = elim (workspace_relpath raw) [
    | none ↦ escape
    | some rel ↦ below disk rel (fs.resolve disk (workspace_root env))
  ]

  abbrev content_of : String → OsResult String → OsResult Fields
  content_of path (os_error e) = os_error e
  content_of path (done content) =
      done (field "path" (str path) (field "content" (str content) end))

  abbrev sized : Disk → String → String → OsResult ℕ → OsResult Fields
  sized disk target path (os_error e) = os_error e
  sized disk target path (done size) =
      if ltb read_max size
      then done (too_large path size)
      else content_of path (fs.read_text disk target)

  abbrev read_at : Disk → String → Located → OsResult Fields
  read_at disk path escape = done (failure "path_escape" path)
  read_at disk path (unresolved e) = os_error e
  read_at disk path (at target) =
      if not (fs.is_file disk target)
      then done (failure "not found" path)
      else sized disk target path (fs.size_of disk target)

  unfoldable pub file_read : Disk → Fields → OsResult Fields
  unfolding resolve_under_workspace text_at
  file_read disk arguments =
      let path = text_at "path" arguments in read_at disk path (resolve_under_workspace disk path)

  abbrev answer_written : String → String → Fields
  answer_written path content =
      field "path" (str path)
        (field "ok" (boolean true) (field "bytes" (num (pos (len content))) end))

  abbrev put_text : Disk → String → String → OsResult Disk → OsResult Fields × Disk
  put_text disk path content (os_error e) = (os_error e, disk)
  put_text disk path content (done disk') = (done (answer_written path content), disk')

  abbrev with_parent : Disk → String → String → String → OsResult Disk → OsResult Fields × Disk
  with_parent disk target path content (os_error e) = (os_error e, disk)
  with_parent disk target path content (done disk') =
      put_text disk' path content (fs.write_text disk' target content)

  abbrev pub write_at : Disk → String → String → Located → OsResult Fields × Disk
  write_at disk path content escape = (done (failure "path_escape" path), disk)
  write_at disk path content (unresolved e) = (os_error e, disk)
  write_at disk path content (at target) =
      with_parent disk target path content (fs.make_parent disk target)

  unfoldable pub file_write : Disk → Fields → OsResult Fields × Disk
  unfolding resolve_under_workspace text_at
  file_write disk arguments =
      let path = text_at "path" arguments in
      let content = text_at "content" arguments in
      if ltb write_max (count content)
      then (done (too_large path (count content)), disk)
      else write_at disk path content (resolve_under_workspace disk path)

  -- A path that is resolved, with every link on the way followed, and lies under the resolved workspace.
  abbrev pub IsUnder : Disk → String → String → Type 0
  IsUnder disk raw target =
      (rel : String) × (base : String) × (workspace_relpath raw ≡ some rel)
      × (fs.resolve disk (workspace_root env) ≡ done base)
      × (fs.resolve disk (child_path base rel) ≡ done target)
      × (is_relative_to target base ≡ true)

  of_target :
      (base target : String) (r : OsResult String)
      → under_base base r ≡ at target
      → (r ≡ done target) × (is_relative_to target base ≡ true)
  of_target base target (os_error e) h = absurd (cc h)
  of_target base target (done t) h =
      let same : t ≡ target = ground (arith, h) in
      let under : is_relative_to t base ≡ true = ground (arith, h) in
      (ap (λ (p : String). done p) same, rw (sym same) under)

  of_base :
      (disk : Disk) (raw rel target : String) (r : OsResult String)
      → workspace_relpath raw ≡ some rel
      → fs.resolve disk (workspace_root env) ≡ r
      → below disk rel r ≡ at target
      → IsUnder disk raw target
  of_base disk raw rel target (os_error e) p q h = absurd (cc h)
  of_base disk raw rel target (done base) p q h =
      let found = of_target base target (fs.resolve disk (child_path base rel)) h in
      (rel, base, p, q, found.0, found.1)

  located-IsUnder :
      (disk : Disk) (raw target : String)
      → resolve_under_workspace disk raw ≡ at target
      → IsUnder disk raw target
  unfolding resolve_under_workspace
  located-IsUnder disk raw target h = elim (Option-cases (workspace_relpath raw)) [
    | inl e ↦ absurd (cc (rw (e, resolve_under_workspace) at h))
    | inr (rel, e) ↦
        of_base disk raw rel target (fs.resolve disk (workspace_root env)) e refl
          (rw (e, resolve_under_workspace) at h)
  ]

  of_place :
      (disk : Disk) (raw content : String) (l : Located)
      → resolve_under_workspace disk raw ≡ l
      → (write_at disk raw content l).1 ≢ disk
      → (target : String) × IsUnder disk raw target
  of_place disk raw content escape e h = absurd (h refl)
  of_place disk raw content (unresolved x) e h = absurd (h refl)
  of_place disk raw content (at target) e h = (target, located-IsUnder disk raw target e)

  -- The guest's file_write changes the disk only if the content is within the limit and the path
  -- leads to a place that, with all links followed, is the resolved workspace or lies under it.
  pub file_write-IsUnder :
      (disk : Disk) (arguments : Fields)
      → (file_write disk arguments).1 ≢ disk
      → (count (text_at "content" arguments) ≤ write_max)
        × ((target : String) × IsUnder disk (text_at "path" arguments) target)
  unfolding file_write
  file_write-IsUnder disk arguments h =
      let fits : count (text_at "content" arguments) ≤ write_max = ground (arith, h) in
      (
        fits,
        of_place disk (text_at "path" arguments) (text_at "content" arguments) _ refl
            (ground (arith, h, fits)),
      )
