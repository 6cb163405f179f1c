-- ===== src/Hefs/Blocks.antt =====
-- The blocks of files.
use krnl.Base.{◌^◌, ◌<◌, ◌≡◌, arith}
use krnl.Hefs.Nodes.{BootNode, IndexNode}
use krnl.Hefs.Sectors.{seal_node}
use krnl.Hefs.Drive.{Drive}
use krnl.Hefs.Files.{place_node}
use krnl.Hefs.Parser.{block_lba}

-- The block of a node that is placed lies where the boot node says.
pub block_lba-place_node :
    (boot : BootNode) (node : IndexNode)
    → boot.start_block < 2 ^ 64
    → block_lba (place_node boot node) ≡ boot.start_block
unfolding block_lba place_node seal_node
block_lba-place_node boot node small = omega arith
