-- ===== src/ClientDatabase/Created.antt =====
-- What CreateBlob makes.
use blobs_db.Base.{ℕ, ◌≤◌, ◌≡◌, ◌∙◌, subst, sym, ap, arith, true, false, List, ltb, add32, length}
use blobs_db.BlobLocation.{at}
use blobs_db.Config.{
  max_blob_size, max_blob_id, max_cluster_id, max_segment_id, next_free_blob_id, blob_list_id,
}
use blobs_db.Snapshot.{id_content}
use blobs_db.Outcome.{returned, blob_too_large, blob_limit_reached, generic}
use blobs_db.Transaction
use blobs_db.ClientDatabase.{
  Server, Database, M, ◌>>=◌, >>=-returned, read_blob_internal, write_blob_internal,
}
use blobs_db.ClientDatabase.Requests.{
  ◌>>◌, give, throw_when, throw_when-returned, >>-returned, in_state, now_locked, id_in,
}
use blobs_db.ClientDatabase.Creations.{take_blob_id, create_blob_internal, create_blob}
use blobs_db.ClientDatabase.OwnWrites.{read_blob_internal-write_blob_internal}

take_blob_id-returned :
    (server : Server) (s c i id : ℕ) (db : Database)
    → (take_blob_id server s c i db).0 ≡ returned id
    → id ≤ max_blob_id
unfolding take_blob_id
take_blob_id-returned server s c i id db h =
    let use_id : M ℕ = in_state (Transaction.create_blob (at s c i)) >> give i in
    let write_next : M ℕ =
      write_blob_internal server (at s c next_free_blob_id) (id_content (add32 i 1))
      >> (now_locked (at s c i) >> use_id) in
    let (db1, h1) =
      >>-returned (now_locked (at s c blob_list_id))
        (throw_when (ltb max_blob_id i) blob_limit_reached >> write_next) db h in
    let (small, e) = throw_when-returned (ltb max_blob_id i) blob_limit_reached write_next db1 h1 in
    let (db2, h2) =
      >>-returned (write_blob_internal server (at s c next_free_blob_id) (id_content (add32 i 1)))
        (now_locked (at s c i) >> use_id) db1 (sym (ap (λ p. p.0) e) ∙ h1) in
    let (db3, h3) = >>-returned (now_locked (at s c i)) use_id db2 h2 in
    let (_, h4) = >>-returned (in_state (Transaction.create_blob (at s c i))) (give i) db3 h3 in
    let same : i ≡ id = cc in subst (λ j. j ≤ max_blob_id) same (ground arith)

create_blob_internal-returned :
    (server : Server) (s c id : ℕ) (db : Database)
    → (create_blob_internal server s c db).0 ≡ returned id
    → id ≤ max_blob_id
unfolding create_blob_internal
create_blob_internal-returned server s c id db h =
    let (content, _, e) =
      >>=-returned (read_blob_internal server (at s c next_free_blob_id) true)
        (λ content. (id_in content >>= take_blob_id server s c)) db h in
    let db1 = (read_blob_internal server (at s c next_free_blob_id) true db).1 in
    let h1 = sym (ap (λ p. p.0) e) ∙ h in
    let (i, _, e') = >>=-returned (id_in content) (take_blob_id server s c) db1 h1 in
    take_blob_id-returned server s c i id (id_in content db1).1 (sym (ap (λ p. p.0) e') ∙ h1)

-- The part of CreateBlob behind its checks.
create_then_write :
    (server later : Server) (s c id : ℕ) (content : List ℕ) (db : Database)
    → let create : M ℕ = create_blob_internal server s c >>= λ i.
        (write_blob_internal server (at s c i) content >> give i) in
      (create db).0 ≡ returned id
      → (id ≤ max_blob_id)
        × (read_blob_internal later (at s c id) false (create db).1
            ≡ (returned content, (create db).1))
create_then_write server later s c id content db h =
    let (i, made, e) =
      >>=-returned (create_blob_internal server s c)
        (λ i. write_blob_internal server (at s c i) content >> give i) db h in
    let db' = (create_blob_internal server s c db).1 in
    let (_, wrote, e') =
      >>=-returned (write_blob_internal server (at s c i) content) (λ _. give i) db'
        (sym (ap (λ p. p.0) e) ∙ h) in
    let same : i ≡ id = cc in
    (
      subst (λ j. j ≤ max_blob_id) same (create_blob_internal-returned server s c i db made),
      subst (λ p. read_blob_internal later (at s c id) false p.1 ≡ (returned content, p.1))
          (sym (e ∙ e'))
          (subst
            (λ j.
              read_blob_internal later (at s c j) false
                (write_blob_internal server (at s c i) content db').1
              ≡ (returned content, (write_blob_internal server (at s c i) content db').1))
            same
            (read_blob_internal-write_blob_internal server later (at s c i) content db' wrote)),
    )

-- If CreateBlob returns an id, no id and no size was over its limit, and the blob is read with its
-- content in the same transaction, whatever the server answers.
pub read_blob_internal-create_blob :
    (server later : Server) (s c id : ℕ) (content : List ℕ) (db : Database)
    → (create_blob server s c content db).0 ≡ returned id
    → let db' = (create_blob server s c content db).1 in
      (length content ≤ max_blob_size)
      × (s ≤ max_segment_id)
      × (c ≤ max_cluster_id)
      × (id ≤ max_blob_id)
      × (read_blob_internal later (at s c id) false db' ≡ (returned content, db'))
unfolding create_blob
read_blob_internal-create_blob server later s c id content db h =
    let create : M ℕ = create_blob_internal server s c >>= λ i.
    (write_blob_internal server (at s c i) content >> give i) in
    let cluster_checked = throw_when (ltb max_cluster_id c) generic >> create in
    let segment_checked = throw_when (ltb max_segment_id s) generic >> cluster_checked in
    let (size, e) =
      throw_when-returned (ltb max_blob_size (length content)) blob_too_large segment_checked db
        h in
    let (segment, e') =
      throw_when-returned (ltb max_segment_id s) generic cluster_checked db
        (sym (ap (λ p. p.0) e) ∙ h) in
    let (cluster, e'') =
      throw_when-returned (ltb max_cluster_id c) generic create db
        (sym (ap (λ p. p.0) (e ∙ e')) ∙ h) in
    let whole = e ∙ e' ∙ e'' in
    let (small, own) =
      create_then_write server later s c id content db (sym (ap (λ p. p.0) whole) ∙ h) in
    (
      ground arith,
      ground arith,
      ground arith,
      small,
      subst (λ p. read_blob_internal later (at s c id) false p.1 ≡ (returned content, p.1))
          (sym whole) own,
    )
