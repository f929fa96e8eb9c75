-- ===== src/UploadManager/Stored.antt =====
-- The result of `transfer`, and what the server keeps then.
use friendly_ai_explorer.Common.{
  if◌then◌else◌, length, Bytes, ℕ, ◌≡◌, refl, sym, ap, subst, ◌∙◌, ◌⊎◌, inl, inr, Bool, true, false,
  not, Option, none, some, List, [], arith, flatten,
}
use friendly_ai_explorer.UploadManager.Transfer.{
  UploadStatus, active, complete, skipped, expired, UploadReceipt, UploadApi, UploadError,
  check_parts, send_parts, and_then, after_complete, complete_signal, after_completion_status,
  transfer, is_done, is_active,
}
use friendly_ai_explorer.UploadManager.Server.{IsReceipt, IsServer, IsSaving}
use friendly_ai_explorer.UploadManager.Pieces.{Covers, Covers-none, Covers-all, Divides}
use friendly_ai_explorer.UploadManager.Loops.{
  Checked, Loaded, and_then-elim, check_parts-Checked, send_parts-Loaded,
}

module _ {W : Type 0} (api : UploadApi W) (id : ℕ) (stored : W → List Bytes)
    (server : IsServer api id stored) (saved : W → Option Bytes)
    (saving : IsSaving api id stored saved) where
  -- A result with the status complete stands for a file that is saved whole.
  abbrev IsSaved : UploadReceipt → W → Type 0
  IsSaved r w = r.status ≡ complete → saved w ≡ some (flatten (stored w))

  abbrev Whole : Bytes → (UploadError ⊎ UploadReceipt) × W → Type 0
  Whole file (inl e, w) = Unit
  Whole file (inr r, w) = Divides api.hash file (stored w) × IsSaved r w

  -- An answer, if it is one, tells the truth.
  abbrev Honest : Option UploadReceipt × W → Type 0
  Honest (none, w) = Unit
  Honest (some r, w) = IsSaved r w

  complete-Honest : (w : W) → Honest (api.post_complete w id)
  complete-Honest w = go (api.post_complete w id) refl
    where
      go : (res : Option UploadReceipt × W) → api.post_complete w id ≡ res → Honest res
      go (none, w') e = tt
      go (some r, w') e = λ c.
          subst (λ x. saved x.1 ≡ some (flatten (stored x.1))) e
            (saving.complete_saves w r (ap {A = Option UploadReceipt × W} (λ x. x.0) e) c)

  get-Honest : (w : W) → Honest (api.get_upload w id)
  get-Honest w = go (api.get_upload w id) refl
    where
      go : (res : Option UploadReceipt × W) → api.get_upload w id ≡ res → Honest res
      go (none, w') e = tt
      go (some r, w') e = λ c.
          subst (λ x. saved x.1 ≡ some (flatten (stored x.1))) e
            (saving.get_saves w r (ap {A = Option UploadReceipt × W} (λ x. x.0) e) c)

  status_end-Whole :
      (file : Bytes) (pieces : List Bytes) (res : Option UploadReceipt × W)
      → stored res.1 ≡ pieces
      → Divides api.hash file pieces
      → Honest res
      → Whole file (after_completion_status api res)
  unfolding after_completion_status
  status_end-Whole file pieces (none, w) s d k = tt
  status_end-Whole file pieces (some r, w) s d k = go (is_done r.status)
    where
      go : (b : Bool) → Whole file (if b then (inr r, w) else (inl UploadError.rejected, w))
      go true = (subst (Divides api.hash file) (sym s) d, k)
      go false = tt

  signal_end-Whole :
      (file : Bytes) (pieces : List Bytes) (signal : Bool × W)
      → stored signal.1 ≡ pieces
      → Divides api.hash file pieces
      → Whole file (complete_signal api id signal)
  unfolding complete_signal
  signal_end-Whole file pieces (true, w) s d = tt
  signal_end-Whole file pieces (false, w) s d =
      status_end-Whole file pieces (api.get_upload w id) (server.get_keeps w ∙ s) d (get-Honest w)

  complete_end-Whole :
      (file : Bytes) (pieces : List Bytes) (res : Option UploadReceipt × W)
      → stored res.1 ≡ pieces
      → Divides api.hash file pieces
      → Honest res
      → Whole file (after_complete api id res)
  unfolding after_complete
  complete_end-Whole file pieces (some r, w) s d k = (subst (Divides api.hash file) (sym s) d, k)
  complete_end-Whole file pieces (none, w) s d k =
      signal_end-Whole file pieces (api.aborted w) (server.aborted_keeps w ∙ s) d

  transfer-Whole :
      (file : Bytes) (task : UploadReceipt) (w : W)
      → is_active task.status ≡ true
      → IsReceipt api id (stored w) task
      → Whole file (transfer api file task w)
  unfolding transfer is_done is_active
  transfer-Whole file task w a r = go task.status a (
      and_then-elim api id stored server (Whole file) (check_parts api file task.parts 0 w) load
        (λ e w'. tt)
        λ offset w1 q1.
          let known : (stored w1 ≡ stored w) × Covers api.hash file offset (stored w) =
            checked offset w1 q1 in
          let c : Covers api.hash file offset (stored w1) =
            subst (Covers api.hash file offset) (sym known.0) known.1 in
          let r1 : IsReceipt api id (stored w1) task =
            subst (λ ps. IsReceipt api id ps task) (sym known.0) r in
          let loaded : Loaded api id stored server file
              (send_parts api (length file) file task offset w1) =
            send_parts-Loaded api id stored server (length file) file task offset w1 (omega arith) c
              r1 in
          and_then-elim api id stored server (Whole file)
            (send_parts api (length file) file task offset w1) finish (λ e w'. tt)
            λ sent w2 q2. finish-Whole sent w2 (subst (Loaded api id stored server file) q2 loaded))
    where
      finish : UploadReceipt × ℕ → W → (UploadError ⊎ UploadReceipt) × W
      finish sent w2 = after_complete api sent.0.id (api.post_complete w2 sent.0.id)

      finish-Whole :
          (sent : UploadReceipt × ℕ) (w2 : W)
          → Loaded api id stored server file (inr sent, w2)
          → Whole file (finish sent w2)
      finish-Whole (sent, offset) w2 l =
          subst (λ j. Whole file (after_complete api j (api.post_complete w2 j))) (sym l.1.same_id)
            (complete_end-Whole file (stored w2) (api.post_complete w2 id)
              (server.complete_keeps w2) (Covers-all api.hash file offset (stored w2) l.0 l.2)
              (complete-Honest w2))

      load : ℕ → W → (UploadError ⊎ UploadReceipt) × W
      load offset w1 = and_then api (send_parts api (length file) file task offset w1) finish

      checked :
          (offset : ℕ) (w1 : W)
          → check_parts api file task.parts 0 w ≡ (inr offset, w1)
          → (stored w1 ≡ stored w) × Covers api.hash file offset (stored w)
      checked offset w1 q = subst (Checked api id stored server file (stored w) (stored w)) q (
          subst
            (λ ps.
              Checked api id stored server file (stored w) (stored w) (check_parts api file ps 0 w))
            (sym r.same_parts)
            (check_parts-Checked api id stored server file (stored w) (stored w) [] 0 w refl
              (Covers-none api.hash file)))

      go :
          (status : UploadStatus)
          → is_active status ≡ true
          → Whole file (and_then api (check_parts api file task.parts 0 w) load)
          → Whole file (
              if is_done status
              then (inr task, w)
              else if not (is_active status)
              then (inl UploadError.upload_expired, w)
              else and_then api (check_parts api file task.parts 0 w) load)
      go active a' h = h
      go complete a' h = absurd (cc a')
      go skipped a' h = absurd (cc a')
      go expired a' h = absurd (cc a')

  -- An upload of an active receipt that ends with the status complete has left the whole file on the
  -- server: the accepted parts have the digests of pieces that, joined, are the file, and the server
  -- has made a file of these parts, joined, whichever requests were rejected on the way and whichever of these had
  -- taken effect.
  pub transfer-Divides :
      (file : Bytes) (task r : UploadReceipt) (w w' : W)
      → is_active task.status ≡ true
      → IsReceipt api id (stored w) task
      → transfer api file task w ≡ (inr r, w')
      → r.status ≡ complete
      → Divides api.hash file (stored w') × (saved w' ≡ some (flatten (stored w')))
  transfer-Divides file task r w w' a h e c =
      let whole : Divides api.hash file (stored w') × IsSaved r w' =
        subst (Whole file) e (transfer-Whole file task w a h) in
      (whole.0, whole.1 c)
