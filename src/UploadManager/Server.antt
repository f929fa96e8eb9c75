-- ===== src/UploadManager/Server.antt =====
-- What the transfer relies on: the server's side of frontend/src/lib/upload-manager.ts.
use friendly_ai_explorer.Common.{
  length, Bytes, ℕ, ◌<◌, ◌≡◌, ◌⊎◌, none, some, List, [], ◌∷◌, ◌++◌, map, Option, flatten,
}
use friendly_ai_explorer.UploadManager.Transfer.{Part, complete, UploadReceipt, UploadApi}

module _ {W : Type 0} (api : UploadApi W) where
  abbrev pub part_of : Bytes → Part
  part_of piece = record { size = length piece; sha256 = api.hash piece }

  -- A receipt of the upload describes the pieces that are stored, and asks for chunks of some size.
  pub record IsReceipt (id : ℕ) (pieces : List Bytes) (r : UploadReceipt) : Type 0 where
    pub same_id : r.id ≡ id
    pub same_parts : r.parts ≡ map part_of pieces
    pub some_size : 0 < r.chunk_size

  -- The upload `id` on the server: `stored` are the parts that it has accepted, as its record of the
  -- upload lists them, also after it has joined them and deleted their files. A part is accepted at the
  -- next index; a request that is rejected may have reached the server; no other request changes the
  -- record's parts.
  pub record IsServer (id : ℕ) (stored : W → List Bytes) : Type 0 where
    pub aborted_keeps : (w : W) → stored (api.aborted w).1 ≡ stored w
    pub get_keeps : (w : W) → stored (api.get_upload w id).1 ≡ stored w
    pub get_tells :
        (w : W) (r : UploadReceipt)
        → (api.get_upload w id).0 ≡ some r
        → IsReceipt id (stored (api.get_upload w id).1) r
    pub complete_keeps : (w : W) → stored (api.post_complete w id).1 ≡ stored w
    pub put_stores :
        (w : W) (chunk : Bytes) (r : UploadReceipt)
        → (api.put_part w id (length (stored w)) chunk (api.hash chunk)).0 ≡ some r
        → (stored (api.put_part w id (length (stored w)) chunk (api.hash chunk)).1
            ≡ stored w ++ (chunk ∷ []))
          × IsReceipt id (stored (api.put_part w id (length (stored w)) chunk (api.hash chunk)).1) r
    pub put_rejects :
        (w : W) (chunk : Bytes)
        → (api.put_part w id (length (stored w)) chunk (api.hash chunk)).0 ≡ none
        → (stored (api.put_part w id (length (stored w)) chunk (api.hash chunk)).1 ≡ stored w)
          ⊎ (stored (api.put_part w id (length (stored w)) chunk (api.hash chunk)).1
              ≡ stored w ++ (chunk ∷ []))

  -- What the server says of a completed upload: `saved` is the file that it has made of the upload,
  -- and an answer with the status complete means that this is the accepted parts, joined. An answer with the
  -- status skipped says nothing of a file.
  pub record IsSaving (id : ℕ) (stored : W → List Bytes) (saved : W → Option Bytes) : Type 0 where
    pub complete_saves :
        (w : W) (r : UploadReceipt)
        → (api.post_complete w id).0 ≡ some r
        → r.status ≡ complete
        → saved (api.post_complete w id).1 ≡ some (flatten (stored (api.post_complete w id).1))
    pub get_saves :
        (w : W) (r : UploadReceipt)
        → (api.get_upload w id).0 ≡ some r
        → r.status ≡ complete
        → saved (api.get_upload w id).1 ≡ some (flatten (stored (api.get_upload w id).1))
