-- ===== src/Transaction/Splitting.antt =====
-- The loop of `ConstructCommitMessages` comes to its end, and sends everything.
use blobs_db.Base.{
  ℕ, zero, suc, ◌≤◌, ◌≡◌, ◌∙◌, ap, ap₂, refl, Bool, true, false, not, ◌&&◌, some, List, [], ◌∷◌,
  ◌++◌, arith, all, All, map, length, is_empty, &&_iff,
}
use blobs_db.Base.Sums.{sum}
use blobs_db.Base.Chunks.{
  take_fitting, append-take_fitting, take_fitting-fits, take_fitting-some, all-left,
}
use blobs_db.Commit.{CommitMessage}
use blobs_db.Transaction.Messages.{
  BlobToSend, data_size, update_of, is_valid_message_size, construct_commit_messages,
}

abbrev pub message_with : ℕ → List BlobToSend → CommitMessage
message_with id bs = record { database_id = id; updates = map update_of bs }

abbrev pub concat : List (List BlobToSend) → List BlobToSend
concat [] = []
concat (bs ∷ bss) = bs ++ concat bss

module _ (message_header blob_header : ℕ) where
  abbrev valid : ℕ → ℕ → Bool
  valid = is_valid_message_size message_header blob_header

  -- The blobs of one message: at least one, and no more than a message can hold.
  abbrev pub fits : List BlobToSend → Bool
  fits bs = not (is_empty bs) && valid (sum data_size bs) (length bs)

  abbrev pub small_enough : BlobToSend → Bool
  small_enough b = valid (data_size b) 1

  abbrev chunk_of : List BlobToSend → List BlobToSend
  chunk_of bs = (take_fitting data_size valid 0 0 bs).0

  abbrev left_of : List BlobToSend → List BlobToSend
  left_of bs = (take_fitting data_size valid 0 0 bs).1

  construct-cons :
      (turns id : ℕ) (b : BlobToSend) (bs : List BlobToSend) (ms : List CommitMessage)
      → is_empty (chunk_of (b ∷ bs)) ≡ false
      → construct_commit_messages message_header blob_header turns id (left_of (b ∷ bs)) ≡ some ms
      → construct_commit_messages message_header blob_header (suc turns) id (b ∷ bs)
        ≡ some (message_with id (chunk_of (b ∷ bs)) ∷ ms)
  unfolding construct_commit_messages
  construct-cons turns id b bs ms full rest = rw (full, rest, construct_commit_messages) refl

  small_enough-start : (b : BlobToSend) → small_enough b ≡ true → valid 0 0 ≡ true
  unfolding is_valid_message_size
  small_enough-start b h = ground arith

  abbrev Split : ℕ → ℕ → List BlobToSend → Type 0
  Split turns id bs =
      (chunks : List (List BlobToSend)) × (construct_commit_messages message_header blob_header
          turns id bs
        ≡ some (map (message_with id) chunks))
      × (concat chunks ≡ bs)
      × All (λ c. fits c ≡ true) chunks

  splits :
      (turns id : ℕ) (bs : List BlobToSend)
      → length bs ≤ turns
      → all small_enough bs ≡ true
      → Split turns id bs
  unfolding construct_commit_messages
  splits turns id [] enough a = ([], refl, refl, tt)
  splits zero id (b ∷ bs) enough a = absurd (omega arith)
  splits (suc turns) id (b ∷ bs) enough a =
      let (a_b, a_bs) = (&&_iff _ _).0 a in
      let (full, less) = take_fitting-some data_size valid b bs a_b in
      let (chunks, made, all_there, fitting) =
        splits turns id (left_of (b ∷ bs)) (omega (arith, less))
          (all-left data_size valid 0 0 (b ∷ bs) a) in
      let whole : valid (sum data_size (chunk_of (b ∷ bs))) (length (chunk_of (b ∷ bs))) ≡ true =
        ap₂ valid (omega arith) (omega arith)
        ∙ take_fitting-fits data_size valid 0 0 (b ∷ bs) (small_enough-start b a_b) in
      (
        chunk_of (b ∷ bs) ∷ chunks,
        construct-cons turns id b bs (map (message_with id) chunks) full made,
        ap (λ xs. chunk_of (b ∷ bs) ++ xs) all_there
            ∙ append-take_fitting data_size valid 0 0 (b ∷ bs),
        (ground (arith, full, whole), fitting),
      )

  -- If each write fits into a message by itself, no assertion of the loop fails and it comes to its
  -- end after at most one turn for each write: the messages carry all writes in their order, each
  -- has at least one and is not too large.
  pub construct_commit_messages_lem :
      (id : ℕ) (bs : List BlobToSend)
      → all small_enough bs ≡ true
      → (chunks : List (List BlobToSend)) × (construct_commit_messages message_header blob_header
            (length bs)
            id
            bs
          ≡ some (map (message_with id) chunks))
        × (concat chunks ≡ bs)
        × All (λ c. fits c ≡ true) chunks
  construct_commit_messages_lem id bs a = splits (length bs) id bs (omega arith) a
