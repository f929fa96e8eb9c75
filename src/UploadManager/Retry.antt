-- ===== src/UploadManager/Retry.antt =====
-- `send_part`: one part with its attempts, and what the server holds after them.
use friendly_ai_explorer.Common.{
  ◌==◌, if◌then◌else◌, length, get_elem?, Bytes, ℕ, zero, suc, ◌<◌, ◌≡◌, refl, sym, ap, subst, ◌∙◌,
  ◌⊎◌, inl, inr, Bool, true, false, Option, none, some, List, [], ◌∷◌, ◌++◌, map, arith,
}
use friendly_ai_explorer.UploadManager.Transfer.{
  UploadReceipt, UploadApi, UploadError, has_digest, after_status, after_rejection, after_put,
  send_part,
}
use friendly_ai_explorer.UploadManager.Server.{part_of, IsReceipt, IsServer}

get_elem?-map_end :
    {A B : Type 0} (f : A → B) (xs : List A) → get_elem? (map f xs) (length xs) ≡ none
get_elem?-map_end f [] = refl
get_elem?-map_end f (x ∷ xs) = get_elem?-map_end f xs

get_elem?-map_last :
    {A B : Type 0} (f : A → B) (xs : List A) (x : A)
    → get_elem? (map f (xs ++ (x ∷ []))) (length xs) ≡ some (f x)
get_elem?-map_last f [] x = refl
get_elem?-map_last f (y ∷ xs) x = get_elem?-map_last f xs x

==_refl : (n : ℕ) → (n == n) ≡ true
==_refl n = ground arith

module _ {W : Type 0} (api : UploadApi W) (id : ℕ) (stored : W → List Bytes)
    (server : IsServer api id stored) where
  -- The end of one part's requests: on success the chunk is stored behind the others, once.
  abbrev pub Sent : List Bytes → Bytes → (UploadError ⊎ UploadReceipt) × W → Type 0
  Sent pieces chunk (inl e, w) = Unit
  Sent pieces chunk (inr r, w) = (stored w ≡ pieces ++ (chunk ∷ [])) × IsReceipt api id (stored w) r

  abbrev Again : List Bytes → Bytes → (W → (UploadError ⊎ UploadReceipt) × W) → Type 0
  Again pieces chunk again = (w : W) → stored w ≡ pieces → Sent pieces chunk (again w)

  after_status-Sent :
      (pieces : List Bytes) (chunk : Bytes) (res : Option UploadReceipt × W)
      (again : W → (UploadError ⊎ UploadReceipt) × W)
      → (stored res.1 ≡ pieces) ⊎ (stored res.1 ≡ pieces ++ (chunk ∷ []))
      → ((r : UploadReceipt) → res.0 ≡ some r → IsReceipt api id (stored res.1) r)
      → Again pieces chunk again
      → Sent pieces chunk (after_status api (length pieces) (api.hash chunk) res again)
  unfolding after_status has_digest
  after_status-Sent pieces chunk (none, w) again s t a = tt
  after_status-Sent pieces chunk (some r, w) again (inl s) t a =
      let found : get_elem? r.parts (length pieces) ≡ none =
        ap (λ ps. get_elem? ps (length pieces)) (t r refl).same_parts
        ∙ ap (λ xs. get_elem? (map (part_of api) xs) (length pieces)) s
        ∙ get_elem?-map_end (part_of api) pieces in
      subst (λ o. Sent pieces chunk (if has_digest o (api.hash chunk) then (inr r, w) else again w))
        (sym found) (a w s)
  after_status-Sent pieces chunk (some r, w) again (inr s) t a =
      let found : get_elem? r.parts (length pieces) ≡ some (part_of api chunk) =
        ap (λ ps. get_elem? ps (length pieces)) (t r refl).same_parts
        ∙ ap (λ xs. get_elem? (map (part_of api) xs) (length pieces)) s
        ∙ get_elem?-map_last (part_of api) pieces chunk in
      subst (λ o. Sent pieces chunk (if has_digest o (api.hash chunk) then (inr r, w) else again w))
        (sym found)
        (subst (λ b. Sent pieces chunk (if b then (inr r, w) else again w))
          (sym (==_refl (api.hash chunk))) (s, t r refl))

  after_rejection-Sent :
      (left : ℕ) (pieces : List Bytes) (chunk : Bytes) (w : W) (signal : Bool × W)
      (again : W → (UploadError ⊎ UploadReceipt) × W)
      → (stored signal.1 ≡ pieces) ⊎ (stored signal.1 ≡ pieces ++ (chunk ∷ []))
      → (0 < left → Again pieces chunk again)
      → Sent pieces chunk
          (after_rejection api left id (length pieces) (api.hash chunk) signal again)
  unfolding after_rejection
  after_rejection-Sent left pieces chunk w (true, w') again s a = tt
  after_rejection-Sent zero pieces chunk w (false, w') again s a = tt
  after_rejection-Sent (suc left) pieces chunk w (false, w') again s a =
      after_status-Sent pieces chunk (api.get_upload w' id) again (map_sum (server.get_keeps w') s)
        (server.get_tells w') (a (omega arith))
    where
      map_sum :
          stored (api.get_upload w' id).1 ≡ stored w'
          → (stored w' ≡ pieces) ⊎ (stored w' ≡ pieces ++ (chunk ∷ []))
          → (stored (api.get_upload w' id).1 ≡ pieces)
            ⊎ (stored (api.get_upload w' id).1 ≡ pieces ++ (chunk ∷ []))
      map_sum k (inl e) = inl (k ∙ e)
      map_sum k (inr e) = inr (k ∙ e)

  after_put-Sent :
      (left : ℕ) (pieces : List Bytes) (chunk : Bytes) (res : Option UploadReceipt × W)
      (again : W → (UploadError ⊎ UploadReceipt) × W)
      → ((r : UploadReceipt)
          → res.0 ≡ some r
          → (stored res.1 ≡ pieces ++ (chunk ∷ [])) × IsReceipt api id (stored res.1) r)
      → (res.0 ≡ none → (stored res.1 ≡ pieces) ⊎ (stored res.1 ≡ pieces ++ (chunk ∷ [])))
      → (0 < left → Again pieces chunk again)
      → Sent pieces chunk (after_put api left id (length pieces) (api.hash chunk) res again)
  unfolding after_put
  after_put-Sent left pieces chunk (some r, w) again p q a = p r refl
  after_put-Sent left pieces chunk (none, w) again p q a =
      after_rejection-Sent left pieces chunk w (api.aborted w) again
        (kept (server.aborted_keeps w) (q refl)) a
    where
      kept :
          stored (api.aborted w).1 ≡ stored w
          → (stored w ≡ pieces) ⊎ (stored w ≡ pieces ++ (chunk ∷ []))
          → (stored (api.aborted w).1 ≡ pieces)
            ⊎ (stored (api.aborted w).1 ≡ pieces ++ (chunk ∷ []))
      kept k (inl e) = inl (k ∙ e)
      kept k (inr e) = inr (k ∙ e)

  -- A part that is sent at the next index is stored once behind the others, and the receipt
  -- describes what is stored, also where requests were rejected before or after they took effect.
  pub send_part-Sent :
      (left : ℕ) (task : UploadReceipt) (chunk : Bytes) (pieces : List Bytes) (w : W)
      → 0 < left
      → task.id ≡ id
      → stored w ≡ pieces
      → Sent pieces chunk (send_part api left task (length pieces) chunk w)
  unfolding send_part
  send_part-Sent zero task chunk pieces w h i s = absurd (omega arith)
  send_part-Sent (suc left) task chunk pieces w h i s =
      let again : W → (UploadError ⊎ UploadReceipt) × W =
        send_part api left task (length pieces) chunk in
      let digest = api.hash chunk in
      let end : W → ℕ → List Bytes → (UploadError ⊎ UploadReceipt) × W = λ u j ps.
        after_put api left j (length pieces) digest (api.put_part u j (length ps) chunk digest)
          again in
      subst (λ j. Sent pieces chunk (end w j pieces)) (sym i)
        (subst (λ ps. Sent pieces chunk (end w id ps)) s
          (after_put-Sent left pieces chunk (api.put_part w id (length (stored w)) chunk digest)
            again
            (λ r e.
              let both = server.put_stores w chunk r e in
              (both.0 ∙ ap (λ ps. ps ++ (chunk ∷ [])) s, both.1))
            (λ e. shifted (server.put_rejects w chunk e))
            (λ h' w' s'. send_part-Sent left task chunk pieces w' h' i s')))
    where
      after : W
      after = (api.put_part w id (length (stored w)) chunk (api.hash chunk)).1

      shifted :
          (stored after ≡ stored w) ⊎ (stored after ≡ stored w ++ (chunk ∷ []))
          → (stored after ≡ pieces) ⊎ (stored after ≡ pieces ++ (chunk ∷ []))
      shifted (inl e) = inl (e ∙ s)
      shifted (inr e) = inr (e ∙ ap (λ ps. ps ++ (chunk ∷ [])) s)
