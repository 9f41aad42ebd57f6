-- ===== src/Workspace/Confined.antt =====
-- The file tools of the Node stay inside the allowed folder.
use Prim.Native.String.{count}
use corvus_node.Prelude.{
  String, ◌≡◌, ◌≢◌, true, false, none, some, arith, Option-cases, inl, inr, ◌⊎◌, ◌≤◌, if◌then◌else◌,
}
use corvus_node.Json.{Value, get}
use corvus_node.Tools.Paths.{workspace_relpath}
use corvus_node.Workspace.{
  FileSystem, child_path, resolves_under, target, host_file_read, host_file_write, write_max,
}

module _ (fs : FileSystem) (disk : fs.Disk) (root : String) where
  -- Where a file operation takes place: below the root by its text, no link itself, and below the
  -- root with all links followed.
  abbrev pub Confined : String → String → Type 0
  Confined raw_path path =
      (rel : String) × (workspace_relpath raw_path ≡ some rel)
      × (path ≡ child_path root rel)
      × (fs.is_symlink disk path ≡ false)
      × (resolves_under fs disk root path ≡ true)

  accepted_candidate :
      (c path : String)
      → (if fs.is_symlink disk c
          then none
          else if resolves_under fs disk root c
          then some c
          else none)
        ≡ some path
      → (path ≡ c) × (fs.is_symlink disk c ≡ false) × (resolves_under fs disk root c ≡ true)
  accepted_candidate c path h = ground arith

  pub target-Confined :
      (raw_path path : String) → target fs disk root raw_path ≡ some path → Confined raw_path path
  unfolding target
  target-Confined raw_path path h = elim (Option-cases (workspace_relpath raw_path)) [
    | inl e ↦ cc (rw (e, target) at h)
    | inr (rel, e) ↦
        let (same, plain, under) =
          accepted_candidate (child_path root rel) path (rw (e, target) at h) in
        (rel, e, same, rw same plain, rw same under)
  ]

  -- file_read answers with a content only if the path is confined to the folder.
  pub host_file_read-Confined :
      (raw_path : String) (v : Value)
      → get "content" (host_file_read fs disk root raw_path) ≡ some v
      → (path : String) × Confined raw_path path
  unfolding host_file_read get
  host_file_read-Confined raw_path v h = elim (Option-cases (target fs disk root raw_path)) [
    | inl e ↦ cc (rw (e, host_file_read) at h)
    | inr (path, e) ↦ (path, target-Confined raw_path path e)
  ]

  -- file_write changes the disk only if the content is within the limit and the path is confined
  -- to the folder: below the root by its text, no link itself, and below the root with all links
  -- followed.
  pub host_file_write-Confined :
      (raw_path content : String)
      → (host_file_write fs disk root raw_path content).1 ≢ disk
      → (count content ≤ write_max) × ((path : String) × Confined raw_path path)
  unfolding host_file_write
  host_file_write-Confined raw_path content h =
      let fits : count content ≤ write_max = ground (arith, h) in
      elim (Option-cases (target fs disk root raw_path)) [
        | inl e ↦ absurd (h (rw (e, host_file_write) (ground arith)))
        | inr (path, e) ↦ (fits, (path, target-Confined raw_path path e))
      ]

  pub write_cases :
      (raw_path content : String)
      → ((host_file_write fs disk root raw_path content).1 ≡ disk)
        ⊎ ((path : String) × Confined raw_path path)
  unfolding host_file_write
  write_cases raw_path content = elim (Option-cases (target fs disk root raw_path)) [
    | inl e ↦ inl (rw (e, host_file_write) (ground arith))
    | inr (path, e) ↦ inr (path, target-Confined raw_path path e)
  ]
