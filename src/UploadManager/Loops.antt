-- ===== src/UploadManager/Loops.antt =====
-- The two loops of a transfer: the check of the stored parts, and the parts that are sent.
use friendly_ai_explorer.Common.{
  ltb, ◌==◌, if◌then◌else◌, ltb→lt, ==_iff, length, Bytes, ℕ, zero, suc, ◌+◌, ◌≤◌, ◌<◌, min, ◌≡◌,
  refl, sym, ap, subst, ◌∙◌, ◌⊎◌, inl, inr, Bool, true, false, not, List, [], ◌∷◌, ◌++◌, map,
  append-nil, append_assoc, arith,
}
use friendly_ai_explorer.UploadManager.Transfer.{
  UploadReceipt, UploadApi, UploadError, slice, unless_aborted, check_parts, send_part, send_parts,
  next_chunk, and_then, attempts,
}
use friendly_ai_explorer.UploadManager.Server.{part_of, IsReceipt, IsServer}
use friendly_ai_explorer.UploadManager.Retry.{Sent, send_part-Sent}
use friendly_ai_explorer.UploadManager.Pieces.{Covers, Covers-extend, slice_end, length-map}

module _ {W : Type 0} (api : UploadApi W) (id : ℕ) (stored : W → List Bytes)
    (server : IsServer api id stored) where
  unless_aborted-elim :
      {A : Type 0} (P : (UploadError ⊎ A) × W → Type 0) (signal : Bool × W)
      (next : W → (UploadError ⊎ A) × W)
      → ((e : UploadError) (w : W) → P (inl e, w))
      → P (next signal.1)
      → P (unless_aborted api signal next)
  unfolding unless_aborted
  unless_aborted-elim P (true, w) next p q = p _ w
  unless_aborted-elim P (false, w) next p q = q

  pub and_then-elim :
      {A B : Type 0} (P : (UploadError ⊎ B) × W → Type 0) (first : (UploadError ⊎ A) × W)
      (next : A → W → (UploadError ⊎ B) × W)
      → ((e : UploadError) (w : W) → P (inl e, w))
      → ((a : A) (w : W) → first ≡ (inr a, w) → P (next a w))
      → P (and_then api first next)
  unfolding and_then
  and_then-elim P (inl e, w) next p q = p e w
  and_then-elim P (inr a, w) next p q = q a w refl

  -- What a check of the parts finds out.
  abbrev pub Checked : Bytes → List Bytes → List Bytes → (UploadError ⊎ ℕ) × W → Type 0
  Checked file all pieces (inl e, w) = Unit
  Checked file all pieces (inr offset, w) = (stored w ≡ all) × Covers api.hash file offset pieces

  pub check_parts-Checked :
      (file : Bytes) (all rest before : List Bytes) (offset : ℕ) (w : W)
      → stored w ≡ all
      → Covers api.hash file offset before
      → Checked file all (before ++ rest) (check_parts api file (map (part_of api) rest) offset w)
  unfolding check_parts
  check_parts-Checked file all [] before offset w s c =
      (s, subst (Covers api.hash file offset) (sym (append-nil before)) c)
  check_parts-Checked file all (piece ∷ rest) before offset w s c =
      unless_aborted-elim (Checked file all (before ++ (piece ∷ rest))) (api.aborted w) round
        (λ e w'. tt)
        (go
          (λ e.
            subst
              (λ ps.
                Checked file all ps
                  (check_parts api file (map (part_of api) rest) (offset + length piece) w1))
              (append_assoc before (piece ∷ []) rest)
              (check_parts-Checked file all rest (before ++ (piece ∷ [])) (offset + length piece) w1
                (server.aborted_keeps w ∙ s)
                (Covers-extend api.hash file offset (offset + length piece) before piece c
                  (omega arith) ((==_iff (api.hash next) (api.hash piece)).0 e))))
          (api.hash next == api.hash piece) refl)
    where
      next : Bytes
      next = slice file offset (offset + length piece)

      w1 : W
      w1 = (api.aborted w).1

      round : W → (UploadError ⊎ ℕ) × W
      round w' =
          if api.hash next == api.hash piece
          then check_parts api file (map (part_of api) rest) (offset + length piece) w'
          else (inl UploadError.mismatch, w')

      go :
          ((api.hash next == api.hash piece) ≡ true
            → Checked file all
                (before ++ (piece ∷ rest))
                (check_parts api file (map (part_of api) rest) (offset + length piece) w1))
          → (b : Bool) → (api.hash next == api.hash piece) ≡ b
          → Checked file all (before ++ (piece ∷ rest)) (
              if b
              then check_parts api file (map (part_of api) rest) (offset + length piece) w1
              else (inl UploadError.mismatch, w1))
      go found true e = found e
      go found false e = tt

  -- What the loop over the chunks achieves.
  abbrev pub Loaded : Bytes → (UploadError ⊎ (UploadReceipt × ℕ)) × W → Type 0
  Loaded file (inl e, w) = Unit
  Loaded file (inr (task, offset), w) =
      Covers api.hash file offset (stored w)
      × IsReceipt api id (stored w) task
      × (length file ≤ offset)

  pub send_parts-Loaded :
      (fuel : ℕ) (file : Bytes) (task : UploadReceipt) (offset : ℕ) (w : W)
      → length file ≤ offset + fuel
      → Covers api.hash file offset (stored w)
      → IsReceipt api id (stored w) task
      → Loaded file (send_parts api fuel file task offset w)
  unfolding send_parts
  send_parts-Loaded zero file task offset w h c r = (c, r, omega arith)
  send_parts-Loaded (suc fuel) file task offset w h c r =
      go
        (λ l task' w'' c' r'.
          send_parts-Loaded fuel file task' (offset + length chunk) w'' (still_enough l) c' r')
        (ltb offset (length file)) refl
    where
      w1 : W
      w1 = (api.aborted w).1

      chunk : Bytes
      chunk = next_chunk api task file offset

      r1 : IsReceipt api id (stored w1) task
      r1 = subst (λ ps. IsReceipt api id ps task) (sym (server.aborted_keeps w)) r

      c1 : Covers api.hash file offset (stored w1)
      c1 = subst (Covers api.hash file offset) (sym (server.aborted_keeps w)) c

      rest_of : UploadReceipt → W → (UploadError ⊎ (UploadReceipt × ℕ)) × W
      rest_of task' w'' = send_parts api fuel file task' (offset + length chunk) w''

      round : W → (UploadError ⊎ (UploadReceipt × ℕ)) × W
      round w' = and_then api (send_part api attempts task (length task.parts) chunk w') rest_of

      upto : ℕ
      upto = min (length file) (offset + task.chunk_size)

      next_offset : offset < length file → offset + length chunk ≡ upto
      next_offset l = unfold next_chunk in slice_end file offset task.chunk_size (omega arith)

      still_enough : offset < length file → length file ≤ offset + length chunk + fuel
      still_enough l = let e = next_offset l in let p = r.some_size in omega arith

      count : length task.parts ≡ length (stored w1)
      count = ap length r1.same_parts ∙ length-map (part_of api) (stored w1)

      sent :
          offset < length file
          → (task' : UploadReceipt) (w'' : W)
          → send_part api attempts task (length task.parts) chunk w1 ≡ (inr task', w'')
          → Covers api.hash file (offset + length chunk) (stored w'')
            × IsReceipt api id (stored w'') task'
      sent l task' w'' q =
          let stored_once : Sent api id stored server (stored w1) chunk (inr task', w'') =
            subst (Sent api id stored server (stored w1) chunk) q (
              subst
                (λ n.
                  Sent api id stored server (stored w1) chunk
                    (send_part api attempts task n chunk w1))
                (sym count)
                (send_part-Sent api id stored server attempts task chunk (stored w1) w1
                  (omega arith) r1.same_id refl)) in
          let longer : Covers api.hash file upto (stored w1 ++ (chunk ∷ [])) =
            Covers-extend api.hash file offset upto (stored w1) chunk c1 (omega arith)
              (unfold next_chunk in refl) in
          (
            subst (λ ps. Covers api.hash file (offset + length chunk) ps) (sym stored_once.0)
                (subst (λ n. Covers api.hash file n (stored w1 ++ (chunk ∷ [])))
                  (sym (next_offset l)) longer),
            stored_once.1,
          )

      go :
          (offset < length file
            → (task' : UploadReceipt) (w'' : W)
            → Covers api.hash file (offset + length chunk) (stored w'')
            → IsReceipt api id (stored w'') task'
            → Loaded file (rest_of task' w''))
          → (b : Bool) → ltb offset (length file) ≡ b
          → Loaded file
              (if not b then (inr (task, offset), w) else unless_aborted api (api.aborted w) round)
      go again false e = (c, r, ground arith)
      go again true e =
          unless_aborted-elim (Loaded file) (api.aborted w) round (λ e w'. tt)
            (and_then-elim (Loaded file) (send_part api attempts task (length task.parts) chunk w1)
              rest_of (λ e w'. tt)
              (λ task' w'' q.
                let l = ltb→lt offset (length file) e in
                let d = sent l task' w'' q in again l task' w'' d.0 d.1))
