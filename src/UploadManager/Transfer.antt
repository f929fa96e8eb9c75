-- ===== src/UploadManager/Transfer.antt =====
-- The part of `perform` in frontend/src/lib/upload-manager.ts that moves a file: from the check of the
-- parts on the server to the receipt of the completed upload. The requests, the abort signal and
-- SHA-256 belong to the browser and the server: they are operations on a world that changes with
-- each of them. A digest is a number; progress reports are left out.
use friendly_ai_explorer.Common.{
  ltb, ◌==◌, if◌then◌else◌, length, take, drop, get_elem?, Bytes, ℕ, zero, suc, ◌+◌, ◌-◌, min, ◌⊎◌,
  inl, inr, Bool, true, false, not, Option, none, some, List, [], ◌∷◌,
}

pub record Part : Type 0 where
  pub size : ℕ
  pub sha256 : ℕ

pub data UploadStatus : Type 0 where
  active complete skipped expired : UploadStatus

pub record UploadReceipt : Type 0 where
  pub id : ℕ
  pub status : UploadStatus
  pub chunk_size : ℕ
  pub parts : List Part

-- `none` stands for a rejected request.
pub record UploadApi (W : Type 0) : Type 0 where
  pub hash : Bytes → ℕ
  pub aborted : W → Bool × W
  pub put_part : W → ℕ → ℕ → Bytes → ℕ → Option UploadReceipt × W
  pub get_upload : W → ℕ → Option UploadReceipt × W
  pub post_complete : W → ℕ → Option UploadReceipt × W

pub data UploadError : Type 0 where
  paused mismatch rejected upload_expired : UploadError

-- `file.slice(a, b)`
abbrev pub slice : Bytes → ℕ → ℕ → Bytes
slice file a b = take (b - a) (drop a file)

-- `status.parts[index]?.sha256 === digest`
unfoldable pub has_digest : Option Part → ℕ → Bool
has_digest none digest = false
has_digest (some p) digest = p.sha256 == digest

unfoldable pub is_done : UploadStatus → Bool
is_done complete = true
is_done skipped = true
is_done _ = false

unfoldable pub is_skipped : UploadStatus → Bool
is_skipped skipped = true
is_skipped _ = false

unfoldable pub is_active : UploadStatus → Bool
is_active active = true
is_active _ = false

abbrev pub attempts : ℕ
attempts = 3

module _ {W : Type 0} (api : UploadApi W) where
  -- `if (controller.signal.aborted) throw ...`
  unfoldable pub unless_aborted :
      {A : Type 0} → Bool × W → (W → (UploadError ⊎ A) × W) → (UploadError ⊎ A) × W
  unless_aborted (true, w) next = (inl paused, w)
  unless_aborted (false, w) next = next w

  -- `for (const part of task.parts)`: the offset behind the parts, which all match the file.
  unfoldable pub check_parts : Bytes → List Part → ℕ → W → (UploadError ⊎ ℕ) × W
  check_parts file [] offset w = (inr offset, w)
  check_parts file (part ∷ parts) offset w = unless_aborted (api.aborted w) λ w'.
      if api.hash (slice file offset (offset + part.size)) == part.sha256
      then check_parts file parts (offset + part.size) w'
      else (inl mismatch, w')

  -- What follows a part that was rejected: the number of attempts that are left is 0 after the third.
  unfoldable pub after_status :
      ℕ
      → ℕ
      → Option UploadReceipt × W
      → (W → (UploadError ⊎ UploadReceipt) × W)
      → (UploadError ⊎ UploadReceipt) × W
  after_status index digest (none, w) again = (inl rejected, w)
  after_status index digest (some status, w) again =
      if has_digest (get_elem? status.parts index) digest then (inr status, w) else again w

  unfoldable pub after_rejection :
      ℕ
      → ℕ
      → ℕ
      → ℕ
      → Bool × W
      → (W → (UploadError ⊎ UploadReceipt) × W)
      → (UploadError ⊎ UploadReceipt) × W
  after_rejection left id index digest (true, w) again = (inl rejected, w)
  after_rejection zero id index digest (false, w) again = (inl rejected, w)
  after_rejection (suc left) id index digest (false, w) again =
      after_status index digest (api.get_upload w id) again

  unfoldable pub after_put :
      ℕ
      → ℕ
      → ℕ
      → ℕ
      → Option UploadReceipt × W
      → (W → (UploadError ⊎ UploadReceipt) × W)
      → (UploadError ⊎ UploadReceipt) × W
  after_put left id index digest (some task, w) again = (inr task, w)
  after_put left id index digest (none, w) again =
      after_rejection left id index digest (api.aborted w) again

  -- `for (let attempt = 0; attempt < 3 && !sent; attempt++)`, on the number of attempts left.
  unfoldable pub send_part : ℕ → UploadReceipt → ℕ → Bytes → W → (UploadError ⊎ UploadReceipt) × W
  send_part zero task index chunk w = (inr task, w)
  send_part (suc left) task index chunk w =
      after_put left task.id index (api.hash chunk)
        (api.put_part w task.id index chunk (api.hash chunk)) (send_part left task index chunk)

  unfoldable pub next_chunk : UploadReceipt → Bytes → ℕ → Bytes
  next_chunk task file offset = slice file offset (min (length file) (offset + task.chunk_size))

  unfoldable pub and_then :
      {A B : Type 0}
      → (UploadError ⊎ A) × W
      → (A → W → (UploadError ⊎ B) × W)
      → (UploadError ⊎ B) × W
  and_then (inl e, w) next = (inl e, w)
  and_then (inr a, w) next = next a w

  -- `while (offset < file.size)`. A chunk has one byte at least, so the file's size is fuel enough.
  unfoldable pub send_parts :
      ℕ → Bytes → UploadReceipt → ℕ → W → (UploadError ⊎ (UploadReceipt × ℕ)) × W
  send_parts zero file task offset w = (inr (task, offset), w)
  send_parts (suc fuel) file task offset w =
      if not (ltb offset (length file))
      then (inr (task, offset), w)
      else unless_aborted (api.aborted w) λ w'.
        let chunk = next_chunk task file offset in
        and_then (send_part attempts task (length task.parts) chunk w')
          λ task' w''. send_parts fuel file task' (offset + length chunk) w''

  -- The completion: where the request is rejected, the upload may be complete nevertheless.
  unfoldable pub after_completion_status :
      Option UploadReceipt × W → (UploadError ⊎ UploadReceipt) × W
  after_completion_status (none, w) = (inl rejected, w)
  after_completion_status (some result, w) =
      if is_done result.status then (inr result, w) else (inl rejected, w)

  unfoldable pub complete_signal : ℕ → Bool × W → (UploadError ⊎ UploadReceipt) × W
  complete_signal id (true, w) = (inl rejected, w)
  complete_signal id (false, w) = after_completion_status (api.get_upload w id)

  unfoldable pub after_complete : ℕ → Option UploadReceipt × W → (UploadError ⊎ UploadReceipt) × W
  after_complete id (some result, w) = (inr result, w)
  after_complete id (none, w) = complete_signal id (api.aborted w)

  -- From `if (task.status === ...)` to the result.
  unfoldable pub transfer : Bytes → UploadReceipt → W → (UploadError ⊎ UploadReceipt) × W
  transfer file task w =
      if is_done task.status
      then (inr task, w)
      else if not (is_active task.status)
      then (inl upload_expired, w)
      else and_then (check_parts file task.parts 0 w) λ offset w1.
        and_then (send_parts (length file) file task offset w1)
          λ sent w2. after_complete sent.0.id (api.post_complete w2 sent.0.id)
