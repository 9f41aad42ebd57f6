-- ===== src/Workspace.antt =====
-- src/corvus_node/node/workspace.py and the limits of tools/files.py: the Node reads, lists and
-- writes files of the allowed host folder. The file system is a parameter; a path is its text.
pub mod Confined
use Prim.Native.String.{count, len}
use corvus_node.Prelude.{
  ℕ, zero, suc, String, ◌<>◌, Bool, true, false, not, ◌&&◌, ◌||◌, Option, none, some, List, [], ◌∷◌,
  starts_with, length, take, sorted, ltb, ◌==◌, if◌then◌else◌,
}
use corvus_node.Prelude.Int.{pos}
use corvus_node.Json.{
  Value, null, boolean, num, str, arr, obj, Items, nil, cons, Fields, end, field,
}
use corvus_node.Tools.Paths.{workspace_relpath, workspace_list_relpath}

-- The result of a system call, or the text of its `OSError`.
pub data OsResult {ℓ} (A : Type ℓ) : Type ℓ where
  done : A → OsResult A
  os_error : String → OsResult A

-- What the code asks of the operating system. The yes-or-no questions have an answer for every path:
-- the OSError that `is_symlink`, `exists`, `is_dir` and `is_file` raise for a path that may not be
-- looked up is left out. The code does not catch it; it ends the session.
pub record FileSystem : Type 1 where
  pub Disk : Type 0
  pub is_symlink : Disk → String → Bool
  pub exists : Disk → String → Bool
  pub is_dir : Disk → String → Bool
  pub is_file : Disk → String → Bool
  pub may_read : Disk → String → Bool
  pub expand_user : String → String
  pub resolve : Disk → String → OsResult String
  pub size_of : Disk → String → OsResult ℕ
  pub read_text : Disk → String → OsResult String
  pub list_dir : Disk → String → OsResult (List String)
  pub make_parent : Disk → String → OsResult Disk
  pub write_text : Disk → String → String → OsResult Disk
  pub own_like : Disk → String → String → OsResult Disk

abbrev pub read_max : ℕ
read_max = 65536

abbrev pub write_max : ℕ
write_max = 65536

abbrev pub list_max : ℕ
list_max = 256

-- `root / rel` for a relative `rel`.
unfoldable pub child_path : String → String → String
child_path root rel = if root == "/" then root <> rel else root <> ("/" <> rel)

-- `path.relative_to(base)` succeeds.
unfoldable pub is_relative_to : String → String → Bool
is_relative_to path base =
    path == base || starts_with path (if base == "/" then base else base <> "/")

abbrev pub failure : String → String → Fields
failure error path = field "error" (str error) (field "path" (str path) end)

abbrev pub too_large : String → ℕ → Fields
too_large path size =
    field "error" (str "too large") (field "path" (str path) (field "size" (num (pos size)) end))

-- `WorkspaceError` texts are built from the path as given.
pub data Resolved : Type 0 where
  folder : String → Resolved
  unusable : String → Resolved

module _ (fs : FileSystem) where
  open fs use {Disk}

  -- `resolve_host_workspace`
  unfoldable pub resolve_host_workspace : Disk → String → Resolved
  resolve_host_workspace disk path = elim (fs.resolve disk (fs.expand_user path)) [
    | os_error _ ↦ unusable ("workspace unreadable: " <> path)
    | done resolved ↦
        if not (fs.exists disk resolved)
        then unusable ("workspace missing: " <> path)
        else if not (fs.is_dir disk resolved)
        then unusable ("workspace is not a directory: " <> path)
        else if not (fs.may_read disk resolved)
        then unusable ("workspace unreadable: " <> path)
        else folder resolved
  ]

  -- The candidate really lies under the root, with every link on the way followed.
  unfoldable pub resolves_under : Disk → String → String → Bool
  unfolding is_relative_to
  resolves_under disk root candidate = elim (fs.resolve disk candidate) [
    | os_error _ ↦ false
    | done path ↦ elim (fs.resolve disk root) [
      | os_error _ ↦ false
      | done base ↦ is_relative_to path base
    ]
  ]

  -- `_target`
  unfoldable pub target : Disk → String → String → Option String
  target disk root raw_path = elim (workspace_relpath raw_path) [
    | none ↦ none
    | some rel ↦
        let candidate = child_path root rel in
        if fs.is_symlink disk candidate
        then none
        else if resolves_under disk root candidate
        then some candidate
        else none
  ]

  abbrev read_sized : Disk → String → String → OsResult ℕ → Fields
  read_sized disk path raw_path (os_error e) = failure e raw_path
  read_sized disk path raw_path (done size) =
      if ltb read_max size then too_large raw_path size else elim (fs.read_text disk path) [
        | os_error e ↦ failure e raw_path
        | done content ↦ field "path" (str raw_path) (field "content" (str content) end)
      ]

  unfoldable pub host_file_read : Disk → String → String → Fields
  host_file_read disk root raw_path = elim (target disk root raw_path) [
    | none ↦ failure "path_escape" raw_path
    | some path ↦
        if fs.is_symlink disk path || not (fs.is_file disk path)
        then failure "not found" raw_path
        else read_sized disk path raw_path (fs.size_of disk path)
  ]

  abbrev written : String → String → Fields
  written raw_path content =
      field "path" (str raw_path)
        (field "ok" (boolean true) (field "bytes" (num (pos (len content))) end))

  -- After the parent directory is there. The owner is set at the end; of that only the failure to
  -- read the root's owner is an error.
  abbrev write_at : Disk → String → String → String → String → Fields × Disk
  write_at disk root path raw_path content =
      if fs.is_symlink disk path
      then (failure "path_escape" raw_path, disk)
      else if fs.exists disk path && not (fs.is_file disk path)
      then (failure "not a file" raw_path, disk)
      else elim (fs.write_text disk path content) [
        | os_error e ↦ (failure e raw_path, disk)
        | done disk' ↦ elim (fs.own_like disk' path root) [
          | os_error e ↦ (failure e raw_path, disk')
          | done disk'' ↦ (written raw_path content, disk'')
        ]
      ]

  unfoldable pub host_file_write : Disk → String → String → String → Fields × Disk
  host_file_write disk root raw_path content =
      if ltb write_max (count content)
      then (too_large raw_path (count content), disk)
      else elim (target disk root raw_path) [
        | none ↦ (failure "path_escape" raw_path, disk)
        | some path ↦ elim (fs.make_parent disk path) [
          | os_error e ↦ (failure e raw_path, disk)
          | done disk' ↦ write_at disk' root path raw_path content
        ]
      ]

  abbrev entry_kind : Disk → String → String
  entry_kind disk child =
      if fs.is_symlink disk child
      then "symlink"
      else if fs.is_dir disk child
      then "dir"
      else if fs.is_file disk child
      then "file"
      else "other"

  abbrev pub list_entries : Disk → String → List String → Items
  list_entries disk folder_path [] = nil
  list_entries disk folder_path (name ∷ names) =
      cons
        (obj (
          field "name" (str name)
            (field "kind" (str (entry_kind disk (child_path folder_path name))) end)))
        (list_entries disk folder_path names)

  -- The listing of a directory under its displayed name.
  unfoldable pub listing : Disk → String → String → List String → Fields
  listing disk folder_path display names = field "path" (str display) (
      field "entries" (arr (list_entries disk folder_path (take list_max (sorted names))))
        (if ltb list_max (length names) then field "truncated" (boolean true) end else end))

  abbrev list_target : Disk → String → String → String → Fields
  list_target disk path display raw_path =
      if fs.is_symlink disk path
      then failure "path_escape" raw_path
      else if not (fs.exists disk path)
      then failure "not found" raw_path
      else if not (fs.is_dir disk path)
      then failure "not a directory" raw_path
      else elim (fs.list_dir disk path) [
        | os_error e ↦ failure e raw_path
        | done names ↦ listing disk path display names
      ]

  unfoldable pub host_file_list : Disk → String → String → Fields
  host_file_list disk root raw_path = elim (workspace_list_relpath raw_path) [
    | none ↦ failure "path_escape" raw_path
    | some rel ↦
        if rel == ""
        then list_target disk root "/workspace" raw_path
        else elim (target disk root raw_path) [
          | none ↦ failure "path_escape" raw_path
          | some path ↦ list_target disk path raw_path raw_path
        ]
  ]
