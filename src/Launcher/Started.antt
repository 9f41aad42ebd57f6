-- ===== src/Launcher/Started.antt =====
-- `launch_turn` starts the jailer only as root, for a user of the jail, and only after every asset was
-- measured.
use corvus_node.Prelude.{◌≡◌}
use corvus_node.Launcher.{Machine, Trace}
use corvus_node.Launcher.Turn.{Instance}
use corvus_node.Launcher.Keeps.{Keeps}
use corvus_node.Launcher.Spawns.{IsChecked}

module _ (machine : Machine) where
  -- What holds of a chosen instance.
  abbrev IsChosen : Instance → Trace → Type 0
  IsChosen inst t = (machine.euid ≡ 0) × IsChecked machine inst.assets t
