-- ===== src/Examples/Etcd.antt =====
-- The theorems on the names of registrations and on the files of targets at concrete inputs.
use juno_agent.Base.{ℕ, ◌≡◌, refl, some, true, List, [], ◌∷◌, ◌++◌, arith}
use juno_agent.Base.Text.{Bytes, codes, trim_left, contains_byte}
use juno_agent.RegProxy.{Readers, node, reg_node, extract, reg_prefix, providers}
use juno_agent.RegProxy.Names.{extract-reg_node}
use juno_agent.RegProxy.Prometheus.{Disk, Change, put, delete, key_parts, file_of, watch_targets}
use juno_agent.RegProxy.Prometheus.Kept.{is_file, watch_targets-is_file}

-- A reader that knows one key and one address.
abbrev readers : Readers
readers = record {
  RegInfo = ℕ;
  head2 = λ sep s. (codes "main", codes "grpc://h");
  parse_url = λ s. some (record { scheme = codes "grpc"; host = codes "h"; port = [] });
  unmarshal = λ s. some 0;
}

extract-reg_node_example :
    extract readers (reg_prefix ++ (codes "germain" ++ (providers ++ codes "grpc://h"))) []
    ≡ node (
        reg_node readers
          (codes "main")
          (record { scheme = codes "grpc"; host = codes "h"; port = [] })
          0)
unfolding trim_left contains_byte
extract-reg_node_example =
    extract-reg_node readers (codes "germain") (codes "grpc://h") []
      (record { scheme = codes "grpc"; host = codes "h"; port = [] }) 0 refl refl refl refl

-- A disk on which every file can be written and removed.
abbrev disk : Disk
disk = record { path = codes "/etc/targets"; writes = λ name. true; removes = λ name. true }

-- A target that is put, deleted, and put under another value.
abbrev target : Bytes
target = codes "/prometheus/job/app/h1"

abbrev parts : List Bytes
parts = [] ∷ codes "prometheus" ∷ codes "job" ∷ codes "app" ∷ codes "h1" ∷ []

abbrev changes : List Change
changes = delete target [] ∷ put target (codes "h:2") ∷ []

watch_targets-is_file_example :
    is_file
      (file_of disk parts (codes "h:" ++ b'1' ∷ []))
      (watch_targets disk (put target (codes "h:" ++ b'1' ∷ []) ∷ changes) [])
    ≡ true
unfolding key_parts
watch_targets-is_file_example =
    watch_targets-is_file disk target (codes "h:") b'1' parts changes [] refl refl (omega arith)
      (refl, (tt, tt))
