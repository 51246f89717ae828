-- ===== src/ReadResponse/Chunks.antt =====
-- The loop over the chunks comes to its end, and sends everything.
use blobs_db.Base.{
  ℕ, zero, suc, ◌≤◌, ◌≡◌, refl, ◌∙◌, ap, ap₂, Bool, true, false, not, ◌&&◌, Option, some, List, [],
  ◌∷◌, ◌++◌, if◌then◌else◌, length, is_empty, all, All, arith, &&_iff,
}
use blobs_db.Base.Sums.{sum}
use blobs_db.Base.Chunks.{append-take_fitting, take_fitting-fits, take_fitting-some, all-left}
use blobs_db.ReadResponse.{BlobData, blob_size, Message, fits_into_message, take_chunk, send_chunks}

-- All the blobs of the messages, in order.
abbrev pub sent : List Message → List (Option BlobData)
sent [] = []
sent (m ∷ ms) = m.blobs ++ sent ms

-- A message says that another follows if one does.
abbrev pub announced : List Message → Bool
announced [] = true
announced (m ∷ ms) =
    (if is_empty ms then not m.has_follow_message else m.has_follow_message) && announced ms

module _ (message_header blob_header : ℕ) where
  -- The message with these blobs is not too large, and not empty.
  abbrev pub fits : List (Option BlobData) → Bool
  fits ds =
      not (is_empty ds)
      && fits_into_message message_header blob_header (sum blob_size ds) (length ds)

  abbrev chunk_of : ℕ → ℕ → List (Option BlobData) → List (Option BlobData)
  chunk_of total n ds = (take_chunk message_header blob_header total n ds).0

  abbrev left_of : ℕ → ℕ → List (Option BlobData) → List (Option BlobData)
  left_of total n ds = (take_chunk message_header blob_header total n ds).1

  take_chunk-append :
      (total n : ℕ) (ds : List (Option BlobData)) → chunk_of total n ds ++ left_of total n ds ≡ ds
  unfolding take_chunk
  take_chunk-append total n ds =
      append-take_fitting blob_size (fits_into_message message_header blob_header) total n ds

  take_chunk-fits :
      (ds : List (Option BlobData))
      → fits_into_message message_header blob_header 0 0 ≡ true
      → fits_into_message message_header blob_header
          (sum blob_size (chunk_of 0 0 ds))
          (length (chunk_of 0 0 ds))
        ≡ true
  unfolding take_chunk
  take_chunk-fits ds h =
      ap₂ (fits_into_message message_header blob_header) (omega arith) (omega arith)
      ∙ take_fitting-fits blob_size (fits_into_message message_header blob_header) 0 0 ds h

  -- A chunk takes at least one blob, if a blob fits into a message by itself.
  abbrev pub fits_alone : Option BlobData → Bool
  fits_alone d = fits_into_message message_header blob_header (blob_size d) 1

  chunk-not_empty :
      (d : Option BlobData) (ds : List (Option BlobData))
      → fits_alone d ≡ true
      → (is_empty (chunk_of 0 0 (d ∷ ds)) ≡ false) × (length (left_of 0 0 (d ∷ ds)) ≤ length ds)
  unfolding take_chunk
  chunk-not_empty d ds h =
      take_fitting-some blob_size (fits_into_message message_header blob_header) d ds h

  fits_alone-start :
      (d : Option BlobData)
      → fits_alone d ≡ true
      → fits_into_message message_header blob_header 0 0 ≡ true
  unfolding fits_into_message
  fits_alone-start d h = ground arith

  send_chunks-cons :
      (turns : ℕ) (d : Option BlobData) (ds : List (Option BlobData)) (messages : List Message)
      → is_empty (chunk_of 0 0 (d ∷ ds)) ≡ false
      → send_chunks message_header blob_header turns (left_of 0 0 (d ∷ ds)) ≡ some messages
      → send_chunks message_header blob_header (suc turns) (d ∷ ds)
        ≡ some (
            record {
              blobs = chunk_of 0 0 (d ∷ ds);
              has_follow_message = not (is_empty (left_of 0 0 (d ∷ ds)));
            }
            ∷ messages)
  unfolding send_chunks
  send_chunks-cons turns d ds messages full rest = rw (rest, full, send_chunks)

  all-left_of :
      (ds : List (Option BlobData))
      → all fits_alone ds ≡ true
      → all fits_alone (left_of 0 0 ds) ≡ true
  unfolding take_chunk
  all-left_of ds a = all-left blob_size (fits_into_message message_header blob_header) 0 0 ds a

  -- The messages that the loop sends for the data.
  record Sends (turns : ℕ) (ds : List (Option BlobData)) : Type 0 where
    messages : List Message
    made : send_chunks message_header blob_header turns ds ≡ some messages
    everything : sent messages ≡ ds
    fitting : All (λ m. fits m.blobs ≡ true) messages
    in_turn : announced messages ≡ true
    some_if : is_empty messages ≡ is_empty ds

  sends :
      (turns : ℕ) (ds : List (Option BlobData))
      → length ds ≤ turns
      → all fits_alone ds ≡ true
      → Sends turns ds
  unfolding send_chunks
  sends turns [] enough a = record {
    messages = [];
    made = refl;
    everything = refl;
    fitting = tt;
    in_turn = refl;
    some_if = refl;
  }
  sends zero (d ∷ ds) enough a = absurd (omega arith)
  sends (suc turns) (d ∷ ds) enough a =
      let (a_d, a_ds) = (&&_iff _ _).0 a in
      let (full, less) = chunk-not_empty d ds a_d in
      let rest =
        sends turns (left_of 0 0 (d ∷ ds)) (omega (arith, less)) (all-left_of (d ∷ ds) a) in
      let chunk_fits = take_chunk-fits (d ∷ ds) (fits_alone-start d a_d) in
      record {
        messages =
            record {
              blobs = chunk_of 0 0 (d ∷ ds);
              has_follow_message = not (is_empty (left_of 0 0 (d ∷ ds)));
            }
            ∷ rest.messages;
        made = send_chunks-cons turns d ds rest.messages full rest.made;
        everything =
            ap (λ xs. chunk_of 0 0 (d ∷ ds) ++ xs) rest.everything ∙ take_chunk-append 0 0 (d ∷ ds);
        fitting = (ground (arith, full, chunk_fits), rest.fitting);
        in_turn = ground (arith, rest.in_turn, rest.some_if);
        some_if = refl;
      }

  -- If each blob that is sent fits into a message by itself, the loop comes to its end after at most
  -- one turn for each blob: the messages carry all the blobs in their order, each message has at
  -- least one and is not too large, and exactly the last does not announce another.
  pub send_chunks_lem :
      (ds : List (Option BlobData))
      → all fits_alone ds ≡ true
      → (messages : List Message) × (send_chunks message_header blob_header (length ds) ds
          ≡ some messages)
        × (sent messages ≡ ds)
        × All (λ m. fits m.blobs ≡ true) messages
        × (announced messages ≡ true)
  send_chunks_lem ds a =
      let s = sends (length ds) ds (omega arith) a in
      (s.messages, s.made, s.everything, s.fitting, s.in_turn)
