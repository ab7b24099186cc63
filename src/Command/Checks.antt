-- ===== src/Command/Checks.antt =====
-- The checks that src/index.ts makes before the migration.
use lisk_migrator.Common.{◌≡◌, ◌↔◌, ◌%◌, Bool, true, false, not, ◌&&◌, ok, arith, ==_iff}
use lisk_migrator.Command.{Flags, NodeStatus, Semver, verify_node}

-- The checks on the node pass exactly if the snapshot height is the node's backup height and a
-- multiple of 103, the network is known where Lisk Core v4 is to be started, and the version of v3
-- is a valid one that is supported.
pub verify_node_iff :
    (semver : Semver) (flags : Flags) (is_known_network : Bool) (node : NodeStatus)
    → (verify_node semver flags is_known_network node ≡ ok tt) ↔ (
        (flags.snapshot_height ≡ node.backup_height)
        × (flags.snapshot_height % 103 ≡ 0)
        × ((flags.auto_start_lisk_core_v4 && not is_known_network) ≡ false)
        × (semver.is_valid node.version ≡ true)
        × (semver.is_unsupported node.version ≡ false))
unfolding verify_node
verify_node_iff semver flags is_known_network node =
    ground (
      arith,
      ==_iff flags.snapshot_height node.backup_height,
      ==_iff (flags.snapshot_height % 103) 0,
    )
