-- ===== src/UploadManager/Examples.antt =====
-- A file of five bytes, of which the server has two, over a connection that loses one answer.
use friendly_ai_explorer.Common.{
  ap, ◌∙◌, flatten, length, Bytes, ℕ, ◌+◌, ◌*◌, ◌≡◌, refl, subst, ◌⊎◌, inr, Bool, true, false,
  Option, none, some, List, [], ◌∷◌, ◌++◌, map, arith,
}
use friendly_ai_explorer.UploadManager.Transfer.{
  Part, UploadStatus, active, complete, UploadReceipt, UploadApi, transfer, unless_aborted,
  check_parts, after_status, after_rejection, after_put, send_part, send_parts, next_chunk,
  and_then, after_complete, complete_signal, after_completion_status, is_done, is_active,
  has_digest,
}
use friendly_ai_explorer.UploadManager.Server.{IsReceipt, IsServer, IsSaving}
use friendly_ai_explorer.UploadManager.Pieces.{Divides}
use friendly_ai_explorer.UploadManager.Retry.{Sent, send_part-Sent}
use friendly_ai_explorer.UploadManager.Stored.{transfer-Divides}

-- Whether the next answer is lost, the stored pieces, and the file that was made of them.
abbrev World : Type 0
World = Bool × List Bytes × Option Bytes

abbrev digest : Bytes → ℕ
digest [] = 0
digest (b ∷ bs) = b + 256 * digest bs

abbrev piece_part : Bytes → Part
piece_part piece = record { size = length piece; sha256 = digest piece }

abbrev receipt : UploadStatus → List Bytes → UploadReceipt
receipt status pieces = record {
  id = 9;
  status = status;
  chunk_size = 2;
  parts = map piece_part pieces;
}

abbrev put_piece : World → ℕ → ℕ → Bytes → ℕ → Option UploadReceipt × World
put_piece (true, pieces, file) id index chunk d = (none, (false, pieces ++ (chunk ∷ []), file))
put_piece (false, pieces, file) id index chunk d =
    (some (receipt active (pieces ++ (chunk ∷ []))), (false, pieces ++ (chunk ∷ []), file))

abbrev web : UploadApi World
web = record {
  hash = digest;
  aborted = λ w. (false, w);
  put_part = put_piece;
  get_upload = λ w id. (some (receipt active w.1), w);
  post_complete = λ w id. (some (receipt complete w.1), (w.0, w.1, some (flatten w.1)));
}

abbrev pieces_of : World → List Bytes
pieces_of w = w.1

abbrev saved_of : World → Option Bytes
saved_of w = w.2

some_inj : (a b : UploadReceipt) → some a ≡ some b → a ≡ b
some_inj a b e = cc e

receipt-IsReceipt : (pieces : List Bytes) → IsReceipt web 9 pieces (receipt active pieces)
receipt-IsReceipt pieces = record { same_id = refl; same_parts = refl; some_size = omega arith }

web-IsServer : IsServer web 9 pieces_of
web-IsServer = record {
  aborted_keeps = λ w. refl;
  get_keeps = λ w. refl;
  get_tells = λ w r e. subst (IsReceipt web 9 w.1) (some_inj _ r e) (receipt-IsReceipt w.1);
  complete_keeps = λ w. refl;
  put_stores = stores;
  put_rejects = rejects;
}
  where
    stores :
        (w : World) (chunk : Bytes) (r : UploadReceipt)
        → (put_piece w 9 (length w.1) chunk (digest chunk)).0 ≡ some r
        → ((put_piece w 9 (length w.1) chunk (digest chunk)).1.1 ≡ w.1 ++ (chunk ∷ []))
          × IsReceipt web 9 (put_piece w 9 (length w.1) chunk (digest chunk)).1.1 r
    stores (true, pieces, file) chunk r e = absurd (cc e)
    stores (false, pieces, file) chunk r e = (
      refl,
      subst (IsReceipt web 9 (pieces ++ (chunk ∷ []))) (some_inj _ r e)
          (receipt-IsReceipt (pieces ++ (chunk ∷ []))),
    )

    rejects :
        (w : World) (chunk : Bytes)
        → (put_piece w 9 (length w.1) chunk (digest chunk)).0 ≡ none
        → ((put_piece w 9 (length w.1) chunk (digest chunk)).1.1 ≡ w.1)
          ⊎ ((put_piece w 9 (length w.1) chunk (digest chunk)).1.1 ≡ w.1 ++ (chunk ∷ []))
    rejects (true, pieces, file) chunk e = inr refl
    rejects (false, pieces, file) chunk e = inr refl

web-IsSaving : IsSaving web 9 pieces_of saved_of
web-IsSaving = record {
  complete_saves = λ w r e c. refl;
  get_saves = λ w r e c.
      let same : receipt active w.1 ≡ r = some_inj _ r e in
      let told : active ≡ complete = ap {A = UploadReceipt} (λ x. x.status) same ∙ c in
      absurd (cc told);
}

abbrev begun : World
begun = (true, (1 ∷ 2 ∷ []) ∷ [], none)

abbrev five : Bytes
five = 1 ∷ 2 ∷ 3 ∷ 4 ∷ 5 ∷ []

abbrev stored_all : World
stored_all = (false, (1 ∷ 2 ∷ []) ∷ (3 ∷ 4 ∷ []) ∷ (5 ∷ []) ∷ [], some five)

five-transfer :
    transfer web five (receipt active ((1 ∷ 2 ∷ []) ∷ [])) begun
    ≡ (inr (receipt complete (stored_all.1)), stored_all)
unfolding transfer unless_aborted check_parts after_status after_rejection after_put send_part
    send_parts next_chunk and_then after_complete complete_signal after_completion_status is_done
    is_active has_digest flatten
five-transfer = refl

transfer-Divides_example :
    Divides digest five (pieces_of stored_all)
    × (saved_of stored_all ≡ some (flatten (pieces_of stored_all)))
transfer-Divides_example =
    transfer-Divides web 9 pieces_of web-IsServer saved_of web-IsSaving five
      (receipt active ((1 ∷ 2 ∷ []) ∷ [])) (receipt complete (stored_all.1)) begun stored_all
      (unfold is_active in refl) (receipt-IsReceipt ((1 ∷ 2 ∷ []) ∷ [])) five-transfer refl

send_part-Sent_example :
    Sent web 9 pieces_of web-IsServer
      ((1 ∷ 2 ∷ []) ∷ [])
      (3 ∷ 4 ∷ [])
      (send_part web 3 (receipt active ((1 ∷ 2 ∷ []) ∷ [])) 1 (3 ∷ 4 ∷ []) begun)
send_part-Sent_example =
    send_part-Sent web 9 pieces_of web-IsServer 3 (receipt active ((1 ∷ 2 ∷ []) ∷ [])) (3 ∷ 4 ∷ [])
      ((1 ∷ 2 ∷ []) ∷ []) begun (omega arith) refl refl
