-- ===== src/Transaction/Messages.antt =====
-- ClientLib/Transaction.cpp: the commit messages that the client library sends for a transaction
-- (`GetSortedWritesToTransmit`, `ConstructCommitMessages`), with the size of a message of
-- Network/message/TransactionCommit.cpp. The sizes of the message and of a blob's header in it, which
-- the compiler lays out, are parameters. `none` stands for a failed assertion.
use blobs_db.Base.{
  ℕ, zero, suc, ◌+◌, ◌*◌, ◌-◌, ◌^◌, ◌%◌, Bool, true, false, not, ◌&&◌, Option, none, some, List, [],
  ◌∷◌, ◌++◌, ◌==◌, ltb, leb, if◌then◌else◌, is_empty, length, map,
}
use blobs_db.Base.Chunks.{take_fitting}
use blobs_db.Config.{
  delete_blob_size, next_free_blob_id, next_free_cluster_id, next_free_segment_id,
  cluster_delete_id, segment_delete_id,
}
use blobs_db.BlobLocation.{BlobLocation, at}
use blobs_db.Commit.{deletion, bytes, Update, CommitMessage}
use blobs_db.Transaction.{DatabaseState}

pub record BlobToSend : Type 0 where
  pub location : BlobLocation
  pub content : Option (List ℕ)
  pub blob_size : ℕ

-- `DataSize`
abbrev pub data_size : BlobToSend → ℕ
data_size b = elim b.content [ none ↦ 0 | some content ↦ length content ]

-- The order by which the writes are sorted.
unfoldable pub goes_before : BlobLocation → BlobLocation → Bool
goes_before a b =
    if a.segment == next_free_segment_id
    then true
    else if b.segment == next_free_segment_id
    then false
    else if not (a.segment == b.segment)
    then ltb a.segment b.segment
    else if a.cluster == next_free_cluster_id
    then true
    else if b.cluster == next_free_cluster_id
    then false
    else if not (a.cluster == b.cluster)
    then ltb a.cluster b.cluster
    else if a.blob == next_free_blob_id
    then true
    else if b.blob == next_free_blob_id
    then false
    else ltb a.blob b.blob

-- `std::stable_sort`
unfoldable pub sort_in : BlobToSend → List BlobToSend → List BlobToSend
sort_in b [] = b ∷ []
sort_in b (x ∷ xs) =
    let rest = sort_in b xs in if goes_before x.location b.location then x ∷ rest else b ∷ x ∷ xs

unfoldable pub stable_sort : List BlobToSend → List BlobToSend
unfolding sort_in
stable_sort [] = []
stable_sort (b ∷ bs) = sort_in b (stable_sort bs)

abbrev pub regular_write : BlobLocation × List ℕ → BlobToSend
regular_write (l, content) = record {
  location = l;
  content = some content;
  blob_size = length content % 2 ^ 32;
}

abbrev pub deletion_of : BlobLocation → BlobToSend
deletion_of l = record { location = l; content = none; blob_size = delete_blob_size }

abbrev pub cluster_deletion : ℕ × ℕ → BlobToSend
cluster_deletion (s, c) = record {
  location = at s c cluster_delete_id;
  content = none;
  blob_size = 0;
}

abbrev pub segment_deletion : ℕ → BlobToSend
segment_deletion s = record {
  location = at s segment_delete_id cluster_delete_id;
  content = none;
  blob_size = 0;
}

unfoldable pub get_sorted_writes_to_transmit : DatabaseState → List BlobToSend
unfolding stable_sort
get_sorted_writes_to_transmit t =
    stable_sort (map regular_write t.written_blobs)
    ++ (map deletion_of t.deleted_blobs
        ++ (map cluster_deletion t.deleted_clusters ++ map segment_deletion t.deleted_segments))

-- The entry of a blob in the message, as the server reads it.
abbrev pub update_of : BlobToSend → Update
update_of b = record {
  location = b.location;
  content =
      if b.blob_size == delete_blob_size
      then deletion
      else elim b.content [ none ↦ bytes [] | some content ↦ bytes content ];
}

-- One message, with `hasFollowMessage`.
pub record ClientCommit : Type 0 where
  pub message : CommitMessage
  pub has_follow_message : Bool

-- The property is set on all but the last message.
unfoldable pub mark_follow_messages : List CommitMessage → List ClientCommit
mark_follow_messages [] = []
mark_follow_messages (m ∷ ms) =
    record { message = m; has_follow_message = not (is_empty ms) } ∷ mark_follow_messages ms

module _ (message_header blob_header : ℕ) where
  unfoldable pub is_valid_message_size : ℕ → ℕ → Bool
  is_valid_message_size total n =
      leb n (2 ^ 16 - 1) && leb (message_header + n * blob_header + total) (2 ^ 32 - 1)

  -- The messages for one database; each turn of the outer loop makes one.
  unfoldable pub construct_commit_messages : ℕ → ℕ → List BlobToSend → Option (List CommitMessage)
  construct_commit_messages turns id [] = some []
  construct_commit_messages zero id (b ∷ bs) = none
  construct_commit_messages (suc turns) id (b ∷ bs) =
      let (chunk, left) = take_fitting data_size is_valid_message_size 0 0 (b ∷ bs) in
      let rest = construct_commit_messages turns id left in
      if is_empty chunk then none else elim rest [
        | none ↦ none
        | some ms ↦ some (record { database_id = id; updates = map update_of chunk } ∷ ms)
      ]

  abbrev pub messages_of : ℕ × DatabaseState → Option (List CommitMessage)
  messages_of (id, t) =
      let writes = get_sorted_writes_to_transmit t in
      construct_commit_messages (length writes) id writes

  unfoldable pub construct_all : List (ℕ × DatabaseState) → Option (List CommitMessage)
  construct_all [] = some []
  construct_all (d ∷ ds) = elim (messages_of d) [
    | none ↦ none
    | some ms ↦ elim (construct_all ds) [ none ↦ none | some rest ↦ some (ms ++ rest) ]
  ]

  -- The messages for all databases of a transaction; an empty one for the first database that is
  -- open where there is nothing to commit.
  unfoldable pub construct_transaction_messages :
      List ℕ → List (ℕ × DatabaseState) → Option (List ClientCommit)
  unfolding mark_follow_messages construct_all
  construct_transaction_messages opened ds = elim (construct_all ds) [
    | none ↦ none
    | some ms ↦
        if is_empty ms
        then (elim opened [
          | [] ↦ none
          | id ∷ _ ↦ some (
              record {
                message = record { database_id = id; updates = [] };
                has_follow_message = false;
              }
              ∷ [])
        ])
        else some (mark_follow_messages ms)
  ]
