-- ===== src/Launcher/Checksums.antt =====
-- src/corvus_node/vm/checksums.py: the pinned digests, and the check of a file against one.
use corvus_node.Prelude.{String, ◌<>◌, Option, none, some, ◌∷◌, ◌==◌}
use corvus_node.Launcher.{Machine, os_error, Launch, ok, measured, pure, raise, ◌>>=◌, require}

pub data Arch : Type 0 where
  x86_64 aarch64 : Arch

abbrev pub kernel_sha256 : Arch → String
kernel_sha256 x86_64 = "b36a4a1b10f33b9cfdcde3d1a787d9c090556a3edb211cd06d1f3f9a6c7e8724"
kernel_sha256 aarch64 = "69aa3308219ec1a070bc9a8e7f80c3b34056fed8ae05efb44e55f73b31adde44"

abbrev pub firecracker_bin_sha256 : Arch → String
firecracker_bin_sha256 x86_64 = "2fd0171309af7e24cf8dafc8a6f921c1434c49b5f9349bb996b7ed0a4deb8aa7"
firecracker_bin_sha256 aarch64 = "71ca0733576579a75cef268a8fd0ae0629b761b9844559c611f144132ac6038a"

abbrev pub jailer_bin_sha256 : Arch → String
jailer_bin_sha256 x86_64 = "1f3a0c1fe86212d0001819bfe0819071c01208b3ccc9398c3b3bc1b84cf21edd"
jailer_bin_sha256 aarch64 = "7db39d34991ccdd8d12aacab384b1dcbe35e79c27823e4e4d33725d4b504edd7"

abbrev pub mismatch : String → String → String → String
mismatch name actual expected =
    name <> (" sha256 mismatch (got " <> (actual <> (", want " <> (expected <> ")"))))

module _ (machine : Machine) where
  -- `sha256_file`
  abbrev pub digest_of : String → Option String → Launch String
  digest_of path none = raise (os_error path)
  digest_of path (some d) = pure d

  abbrev pub measure : String → Launch (Option String)
  measure path s =
      let d = machine.digest path s.trace in (ok d, record s { trace = measured path d ∷ s.trace })

  -- `verify_sha256`, whose `ValueError` every caller turns into `IsolationUnavailable`.
  unfoldable pub verify_sha256 : String → String → String → Launch (Unit {0})
  verify_sha256 path expected name = do
    d ← measure path
    actual ← digest_of path d
    require (actual == expected) (mismatch name actual expected)
