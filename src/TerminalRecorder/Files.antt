-- ===== src/TerminalRecorder/Files.antt =====
-- What the parts of a recording hold, and what a write and a rotation do to them.
use friendly_ai_explorer.Common.{
  ◌==◌, if◌then◌else◌, Bool-cases, length, take, drop, replicate, length-append, take-length_append,
  Bytes, ℕ, zero, suc, ◌+◌, ◌-◌, ◌≤◌, ◌<◌, ◌≡◌, refl, sym, ap, ap₂, ◌∙◌, inl, inr, true, false,
  ◌&&◌, Option, none, some, [], ◌∷◌, ◌++◌, append-nil, append_assoc, arith,
}
use friendly_ai_explorer.TerminalRecorder.State.{
  exists, FileName, Directory, CachedRecording, same_name, update_file, content, write_at,
}
use friendly_ai_explorer.TerminalRecorder.Job.{next_part}

-- The parts before the n-th, joined.
unfoldable pub earlier : Directory → ℕ → ℕ → Bytes
earlier directory stem zero = []
earlier directory stem (suc zero) = []
earlier directory stem (suc (suc n)) =
    earlier directory stem (suc n) ++ content (directory (stem, suc n))

-- What the current part holds of the recording: nothing, until something was written.
abbrev pub current : Directory → CachedRecording → Bytes
current directory e = if e.offset == 0 then [] else content (directory e.file)

-- All that the recording has on the disk.
abbrev pub contents : Directory → CachedRecording → Bytes
contents directory e = earlier directory e.stem e.part ++ current directory e

pub record IsPlaced (directory : Directory) (e : CachedRecording) : Type 0 where
  pub named : e.file ≡ (e.stem, e.part)
  pub positive : 0 < e.part
  pub sized : length (current directory e) ≡ e.offset

update_file_other :
    (name other : FileName) (bytes : Bytes) (directory : Directory)
    → same_name other name ≡ false
    → update_file name bytes directory other ≡ directory other
unfolding update_file
update_file_other name other bytes directory h = rw h

update_file_self :
    (stem part : ℕ) (bytes : Bytes) (directory : Directory)
    → update_file (stem, part) bytes directory (stem, part) ≡ some bytes
unfolding update_file same_name
update_file_self stem part bytes directory = ground arith

-- A write to a part leaves the parts before it alone.
earlier-update_file :
    (directory : Directory) (stem part n : ℕ) (bytes : Bytes)
    → n ≤ part
    → earlier (update_file (stem, part) bytes directory) stem n ≡ earlier directory stem n
unfolding earlier
earlier-update_file directory stem part zero bytes h = refl
earlier-update_file directory stem part (suc zero) bytes h = refl
earlier-update_file directory stem part (suc (suc n)) bytes h =
    let apart : same_name (stem, suc n) (stem, part) ≡ false = unfold same_name in ground arith in
    rw (
      earlier-update_file directory stem part (suc n) bytes (omega arith),
      update_file_other (stem, part) (stem, suc n) bytes directory apart,
    )

drop-past : (old : Bytes) (n : ℕ) → length old ≤ n → drop n old ≡ []
drop-past [] zero h = refl
drop-past [] (suc n) h = refl
drop-past (b ∷ bs) zero h = absurd (omega arith)
drop-past (b ∷ bs) (suc n) h = drop-past bs n (omega arith)

no_pad :
    (old : Bytes) (offset : ℕ)
    → length old ≡ offset
    → replicate {A = ℕ} (offset - length old) 0 ≡ []
no_pad old offset e =
    let none_left : offset - length old ≡ 0 = omega arith in
    ap (λ n. replicate {A = ℕ} n 0) none_left

-- A write at the end of a file appends to it.
write_at_end :
    (old : Bytes) (offset : ℕ) (bytes : Bytes)
    → length old ≡ offset
    → write_at old offset bytes ≡ old ++ bytes
unfolding write_at
write_at_end old offset bytes e =
    let whole : take offset old ≡ old =
      ap (λ n. take n old) (sym e)
      ∙ ap (take (length old)) (sym (append-nil old))
      ∙ take-length_append old [] in
    let no_gap : replicate {A = ℕ} (offset - length old) 0 ≡ [] = no_pad old offset e in
    let behind : length old ≤ offset + length bytes = omega arith in
    let no_rest : drop (offset + length bytes) old ≡ [] =
      drop-past old (offset + length bytes) behind in
    rw (whole, no_gap, no_rest, append-nil bytes)

earlier-suc :
    (directory : Directory) (stem n : ℕ)
    → 0 < n
    → earlier directory stem (suc n) ≡ earlier directory stem n ++ content (directory (stem, n))
unfolding earlier
earlier-suc directory stem zero h = absurd (omega arith)
earlier-suc directory stem (suc n) h = refl

-- Ending a part keeps what is on the disk: the part becomes one of the earlier ones.
pub contents-next_part :
    (directory : Directory) (e : CachedRecording)
    → IsPlaced directory e
    → (e.offset == 0) ≡ false
    → contents directory (next_part e) ≡ contents directory e
unfolding next_part
contents-next_part directory e p h =
    let started : current directory e ≡ content (directory (e.stem, e.part)) = rw (h, p.named) in
    append-nil (earlier directory e.stem (suc e.part))
    ∙ earlier-suc directory e.stem e.part p.positive
    ∙ ap (◌++◌ (earlier directory e.stem e.part)) (sym started)

-- The record after a write of these bytes.
abbrev pub written : CachedRecording → Bytes → CachedRecording
written e bytes = record e { offset = e.offset + length bytes; pending = [] }

current-content :
    (directory : Directory) (e : CachedRecording)
    → length (content (directory e.file)) ≡ e.offset
    → current directory e ≡ content (directory e.file)
current-content directory e h = go (content (directory e.file)) h
  where
    go : (bs : Bytes) → length bs ≡ e.offset → (if e.offset == 0 then [] else bs) ≡ bs
    go [] k = ground arith
    go (b ∷ bs) k = ground arith

-- The file of a record after its write.
pub write-file :
    (directory : Directory) (e : CachedRecording) (bytes : Bytes)
    → IsPlaced directory e
    → length (content (directory e.file)) ≡ e.offset
    → content
        (update_file e.file (write_at (content (directory e.file)) e.offset bytes) directory e.file)
      ≡ content (directory e.file) ++ bytes
write-file directory e bytes p h =
    let self =
      update_file_self e.file.0 e.file.1 (write_at (content (directory e.file)) e.offset bytes)
        directory in
    ap content self ∙ write_at_end (content (directory e.file)) e.offset bytes h

abbrev pub after_writing : Directory → CachedRecording → Bytes → Directory
after_writing directory e bytes =
    update_file e.file (write_at (content (directory e.file)) e.offset bytes) directory

written-sized :
    (directory : Directory) (e : CachedRecording) (bytes : Bytes)
    → IsPlaced directory e
    → length (content (directory e.file)) ≡ e.offset
    → length (content (after_writing directory e bytes e.file)) ≡ e.offset + length bytes
written-sized directory e bytes p h =
    ap length (write-file directory e bytes p h)
    ∙ length-append (content (directory e.file)) bytes
    ∙ ap (λ n. n + length bytes) h

pub written-IsPlaced :
    (directory : Directory) (e : CachedRecording) (bytes : Bytes)
    → IsPlaced directory e
    → length (content (directory e.file)) ≡ e.offset
    → IsPlaced (after_writing directory e bytes) (written e bytes)
written-IsPlaced directory e bytes p h = record {
  named = p.named;
  positive = p.positive;
  sized =
      ap length (
        current-content (after_writing directory e bytes) (written e bytes)
          (written-sized directory e bytes p h))
      ∙ written-sized directory e bytes p h;
}

-- A write adds its bytes to what the recording has on the disk.
pub contents-written :
    (directory : Directory) (e : CachedRecording) (bytes : Bytes)
    → IsPlaced directory e
    → length (content (directory e.file)) ≡ e.offset
    → contents (after_writing directory e bytes) (written e bytes) ≡ contents directory e ++ bytes
contents-written directory e bytes p h =
    let value = write_at (content (directory e.file)) e.offset bytes in
    let before : earlier (after_writing directory e bytes) e.stem e.part
        ≡ earlier directory e.stem e.part =
      ap (λ name. earlier (update_file name value directory) e.stem e.part) p.named
      ∙ earlier-update_file directory e.stem e.part e.part value (omega arith) in
    let now : current (after_writing directory e bytes) (written e bytes)
        ≡ current directory e ++ bytes =
      current-content (after_writing directory e bytes) (written e bytes)
        (written-sized directory e bytes p h)
      ∙ write-file directory e bytes p h
      ∙ ap (λ bs. bs ++ bytes) (sym (current-content directory e h)) in
    ap₂ (◌++◌) before now
    ∙ sym (append_assoc (earlier directory e.stem e.part) (current directory e) bytes)

same_name_eq : (a b : FileName) → same_name a b ≡ true → a ≡ b
unfolding same_name
same_name_eq (m, n) (m', n') q =
    let h : (m ≡ m') × (n ≡ n') = (ground arith, ground arith) in ap₂ (λ i j. (i, j)) h.0 h.1

-- A write only adds to a file.
pub after_writing-extends :
    (directory : Directory) (e : CachedRecording) (bytes : Bytes)
    → length (content (directory e.file)) ≡ e.offset
    → (name : FileName)
    → (more : Bytes) × (content (after_writing directory e bytes name)
        ≡ content (directory name) ++ more)
unfolding update_file
after_writing-extends directory e bytes h name =
    let old = content (directory e.file) in
    elim (Bool-cases (same_name name e.file)) [
      | inl q ↦
          let found : content (after_writing directory e bytes name) ≡ write_at old e.offset bytes =
            rw q in
          let here : old ≡ content (directory name) =
            ap (λ n. content (directory n)) (sym (same_name_eq name e.file q)) in
          (bytes, found ∙ write_at_end old e.offset bytes h ∙ ap (λ bs. bs ++ bytes) here)
      | inr q ↦
          let same : content (after_writing directory e bytes name) ≡ content (directory name) =
            rw q in
          ([], same ∙ sym (append-nil (content (directory name))))
    ]

-- What is about to be written belongs at the end of its file: a new part has no file yet.
pub placed_end :
    (directory : Directory) (e : CachedRecording)
    → IsPlaced directory e
    → (e.offset == 0 && exists (directory e.file)) ≡ false
    → length (content (directory e.file)) ≡ e.offset
unfolding exists
placed_end directory e p h = go (directory e.file) p.sized h
  where
    go :
        (old : Option Bytes)
        → length (if e.offset == 0 then [] else content old) ≡ e.offset
        → (e.offset == 0 && exists old) ≡ false
        → length (content old) ≡ e.offset
    go none k q = ground arith
    go (some bytes) k q = ground arith
