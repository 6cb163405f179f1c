-- ===== src/Hefs/Search.antt =====
-- A search for a file that its test stops at answers with the file.
use krnl.Base.{ℕ, ◌≤◌, ◌<◌, ◌≡◌, refl, ◌∙◌, false, List, some, arith, ◌==◌, ltb}
use krnl.Hefs.Words.{hash_64}
use krnl.Hefs.Nodes.{BootNode, IndexNode}
use krnl.Hefs.Drive.{Drive, read_node, read_directory}
use krnl.Hefs.Scan.{scan}
use krnl.Hefs.Files.{Fetched, judge_fetch, past_fetch, node_in, fetch_in, is_file}
use krnl.Hefs.Walks.{Reaches, scan-Reaches, Reaches-judge}
use krnl.Hefs.Verdicts.{judge_fetch_here}

fetch_result :
    (steps : ℕ) (d : Drive) (boot : BootNode) (dir_name file_name : List ℕ) (kind k p : ℕ)
    → d.error ≡ 0
    → boot.start_ind ≤ boot.end_ind
    → boot.start_in ≤ boot.end_in
    → Reaches (judge_fetch d dir_name file_name kind) (past_fetch boot) k boot.start_ind p
    → k < steps
    → (f : Fetched) × (fetch_in steps d boot dir_name file_name kind ≡ some f)
      × (f.node ≡ node_in d file_name kind (read_directory d p))
unfolding fetch_in scan node_in read_directory is_file read_node
fetch_result steps d boot dir_name file_name kind k p no_error region nodes r enough =
    let low : ltb boot.end_ind boot.start_ind ≡ false = ground (arith, region) in
    let low_in : ltb boot.end_in boot.start_in ≡ false = ground (arith, nodes) in
    let sound : (d.error == 54) ≡ false = ground (arith, no_error) in
    (
      record {
        node = node_in d file_name kind (read_directory d p);
        drive = record d { error = 0 };
      },
      rw
          (
            low,
            low_in,
            sound,
            scan-Reaches (judge_fetch d dir_name file_name kind) (past_fetch boot) steps
                boot.start_ind p k r enough,
          )
          refl,
      refl,
    )

-- The file of a search.
pub Finds : ℕ → Drive → BootNode → List ℕ → List ℕ → ℕ → Type 0
Finds steps d boot dir_name file_name kind =
    (f : Fetched) × (fetch_in steps d boot dir_name file_name kind ≡ some f)
    × (n : IndexNode) × (f.node ≡ some n)
    × (n.hash_path ≡ hash_64 file_name)
    × (n.kind ≡ kind)

pub fetch_in-Finds :
    (steps : ℕ) (d : Drive) (boot : BootNode) (dir_name file_name : List ℕ) (kind k p : ℕ)
    → d.error ≡ 0
    → boot.start_ind ≤ boot.end_ind
    → boot.start_in ≤ boot.end_in
    → Reaches (judge_fetch d dir_name file_name kind) (past_fetch boot) k boot.start_ind p
    → k < steps
    → Finds steps d boot dir_name file_name kind
unfolding Finds
fetch_in-Finds steps d boot dir_name file_name kind k p no_error region nodes r enough =
    let (n, there, hash, same_kind) =
      judge_fetch_here d dir_name file_name kind p
        (Reaches-judge (judge_fetch d dir_name file_name kind) (past_fetch boot) r) in
    let (f, fetched, at_p) =
      fetch_result steps d boot dir_name file_name kind k p no_error region nodes r enough in
    (f, fetched, n, at_p ∙ there, hash, same_kind)
