-- ===== src/Config.antt =====
-- ClientLib/include/blobs/Config.hpp: the special ids. `segment_id`, `cluster_id`, `blob_id` and
-- `blob_size` are `uint32_t`; an id is a number, and arithmetic on ids is written modulo `2 ^ 32`.
use blobs_db.Base.{ℕ, ◌+◌, ◌-◌, ◌^◌}

abbrev pub max_blob_size : ℕ
max_blob_size = 2 ^ 32 - 1 - 0x100

-- The size in a `TransactionCommit` entry that stands for the deletion of the blob.
abbrev pub delete_blob_size : ℕ
delete_blob_size = max_blob_size + 1

abbrev pub max_blob_id : ℕ
max_blob_id = 2 ^ 32 - 1 - 0x100

abbrev pub next_free_blob_id : ℕ
next_free_blob_id = max_blob_id + 1

abbrev pub cluster_delete_id : ℕ
cluster_delete_id = max_blob_id + 2

abbrev pub blob_list_id : ℕ
blob_list_id = max_blob_id + 3

abbrev pub max_cluster_id : ℕ
max_cluster_id = 2 ^ 32 - 1 - 0x100

abbrev pub next_free_cluster_id : ℕ
next_free_cluster_id = max_cluster_id + 1

abbrev pub segment_delete_id : ℕ
segment_delete_id = max_cluster_id + 2

abbrev pub cluster_list_id : ℕ
cluster_list_id = max_cluster_id + 3

abbrev pub max_segment_id : ℕ
max_segment_id = 2 ^ 32 - 1 - 0x100

abbrev pub next_free_segment_id : ℕ
next_free_segment_id = max_segment_id + 1

abbrev pub segment_list_id : ℕ
segment_list_id = max_segment_id + 2
