-- ===== src/RegProxy/Prometheus.antt =====
-- The files of targets that pkg/proxy/regProxy/etcd/prometheus.go keeps for what etcd holds under
-- /prometheus/job: PrometheusConfigScanner and the loop of watchPrometheus. Which files can be written
-- or removed is a parameter.
pub mod Kept
use juno_agent.Base.{
  ℕ, Option, none, some, Bool, true, false, ◌||◌, List, [], ◌∷◌, ◌++◌, ◌==◌, if◌then◌else◌, length,
  get_or,
}
use juno_agent.Base.Text.{Bytes, codes, split}
use juno_agent.Base.Dict.{Dict, insert, remove}

pub record Disk : Type 0 where
  pub path : Bytes
  pub writes : Bytes → Bool
  pub removes : Bytes → Bool

-- The parts of a key that has 5 or 6 of them.
unfoldable pub key_parts : Bytes → Option (List Bytes)
unfolding split
key_parts key =
    let parts = split b'/' key in
    if length parts == 5 || length parts == 6 then some parts else none

unfoldable pub filename_of : List Bytes → Bytes → Bytes
filename_of parts value = get_or parts 3 [] ++ codes "_" ++ value

unfoldable pub content_of : List Bytes → Bytes → Bytes
unfolding filename_of
content_of parts value =
    b'\n' ∷ codes "- targets:"
    ++ b'\n' ∷ b'\n' ∷ codes "    - "
    ++ 34 ∷ value
    ++ 34 ∷ b'\n' ∷ codes "  labels:"
    ++ b'\n' ∷ codes "    instance: "
    ++ get_or parts 4 []
    ++ b'\n' ∷ codes "    job: "
    ++ filename_of parts value

-- The events of the watch, with the value that they carry.
pub data Change : Type 0 where
  put : Bytes → Bytes → Change
  delete : Bytes → Bytes → Change

module _ (D : Disk) where
  unfoldable pub file_of : List Bytes → Bytes → Bytes
  unfolding filename_of
  file_of parts value = D.path ++ codes "/" ++ filename_of parts value ++ codes ".yml"

  -- The body of both loops at a value that is held or put; an error of the file is dropped.
  unfoldable pub write_target : Bytes → Bytes → Dict Bytes → Dict Bytes
  unfolding key_parts file_of content_of
  write_target key value files = elim (key_parts key) [
    | none ↦ files
    | some parts ↦
        if D.writes (file_of parts value)
        then insert (file_of parts value) (content_of parts value) files
        else files
  ]

  -- PrometheusConfigScanner, with what etcd holds.
  unfoldable pub scan_targets : List (Bytes × Bytes) → Dict Bytes → Dict Bytes
  unfolding write_target
  scan_targets [] files = files
  scan_targets ((key, value) ∷ kvs) files = scan_targets kvs (write_target key value files)

  unfoldable pub remove_target : Bytes → Bytes → Dict Bytes → Dict Bytes
  unfolding key_parts file_of
  remove_target key value files = elim (key_parts key) [
    | none ↦ files
    | some parts ↦
        if D.removes (file_of parts value) then remove (file_of parts value) files else files
  ]

  unfoldable pub change_target : Change → Dict Bytes → Dict Bytes
  unfolding write_target remove_target
  change_target (put key value) files = write_target key value files
  change_target (delete key value) files = remove_target key value files

  -- The loop of watchPrometheus.
  unfoldable pub watch_targets : List Change → Dict Bytes → Dict Bytes
  unfolding change_target
  watch_targets [] files = files
  watch_targets (c ∷ changes) files = watch_targets changes (change_target c files)
