-- ===== src/AdbShell/Stream.antt =====
-- The decoder over a whole stream that arrives in chunks.
use friendly_ai_explorer.Common.{
  map, ◌+◌, ◌<◌, length, length-append, All, Bytes, ℕ, zero, suc, ◌≤◌, ◌≡◌, refl, sym, ap, ◌∙◌, ◌⊎◌,
  inl, inr, List, [], ◌∷◌, ◌++◌, append-nil, append_assoc, arith, flatten,
}
use friendly_ai_explorer.AdbShell.{
  output, exit, ShellEvent, shell_packet, Frame, Pushed, partial, invalid, frame, max_payload,
  next_frame, drain, pushed, failed, emit, event, append_events, push, push_all,
}
use friendly_ai_explorer.AdbShell.Frames.{
  next_frame-shorter, next_frame-append, next_frame-append_invalid, next_frame-shell_packet,
}

Frame-cases :
    (f : Frame)
    → (f ≡ partial)
      ⊎ (f ≡ invalid)
      ⊎ ((id : ℕ) × (payload : Bytes) × (rest : Bytes) × (f ≡ frame id payload rest))
Frame-cases partial = inl refl
Frame-cases invalid = inr (inl refl)
Frame-cases (frame id payload rest) = inr (inr (id, payload, rest, refl))

drain_partial :
    (f : ℕ) (buffer : Bytes) → next_frame buffer ≡ partial → drain f buffer ≡ pushed [] buffer
unfolding drain
drain_partial zero buffer e = refl
drain_partial (suc f) buffer e = rw (e, drain)

drain_invalid :
    (f : ℕ) (buffer : Bytes) → next_frame buffer ≡ invalid → drain (suc f) buffer ≡ failed []
unfolding drain
drain_invalid f buffer e = rw (e, drain)

drain_frame :
    (f : ℕ) (buffer : Bytes) {id : ℕ} {payload rest : Bytes}
    → next_frame buffer ≡ frame id payload rest
    → drain (suc f) buffer ≡ emit (event id payload) (drain f rest)
unfolding drain
drain_frame f buffer e = rw (e, drain)

-- An empty buffer holds no frame, so with no fuel there is nothing to do.
next_frame-nil : (buffer : Bytes) → length buffer ≤ 0 → next_frame buffer ≡ partial
unfolding next_frame
next_frame-nil [] h = refl
next_frame-nil (b ∷ bs) h = absurd (omega arith)

-- Any fuel from the buffer's length on gives the same result.
pub drain_fuel :
    (f g : ℕ) (buffer : Bytes)
    → length buffer ≤ f
    → length buffer ≤ g
    → drain f buffer ≡ drain g buffer
drain_fuel zero g buffer p q =
    let e = next_frame-nil buffer p in drain_partial 0 buffer e ∙ sym (drain_partial g buffer e)
drain_fuel (suc f) zero buffer p q =
    let e = next_frame-nil buffer q in
    drain_partial (suc f) buffer e ∙ sym (drain_partial 0 buffer e)
drain_fuel (suc f) (suc g) buffer p q = elim (Frame-cases (next_frame buffer)) [
  | inl e ↦ drain_partial (suc f) buffer e ∙ sym (drain_partial (suc g) buffer e)
  | inr (inl e) ↦ drain_invalid f buffer e ∙ sym (drain_invalid g buffer e)
  | inr (inr (id, payload, rest, e)) ↦
      let shorter = next_frame-shorter buffer e in
      drain_frame f buffer e
      ∙ ap (emit (event id payload)) (drain_fuel f g rest (omega arith) (omega arith))
      ∙ sym (drain_frame g buffer e)
]

-- Where a first buffer leaves off, the rest of the stream goes on.
abbrev pub resume : Pushed → Bytes → Pushed
resume (pushed es pending) more = append_events es (push pending more)
resume (failed es) more = failed es

resume-emit :
    (e : ShellEvent) (p : Pushed) (more : Bytes) → emit e (resume p more) ≡ resume (emit e p) more
unfolding emit append_events
resume-emit e (pushed es pending) more = go (push pending more)
  where
    go : (q : Pushed) → emit e (append_events es q) ≡ append_events (e ∷ es) q
    go (pushed fs p) = refl
    go (failed fs) = refl
resume-emit e (failed es) more = refl

append_events-nil : (p : Pushed) → append_events [] p ≡ p
unfolding append_events
append_events-nil (pushed es p) = refl
append_events-nil (failed es) = refl

append_partial :
    (f g : ℕ) (buffer more : Bytes)
    → next_frame buffer ≡ partial
    → length (buffer ++ more) ≤ g
    → drain g (buffer ++ more) ≡ resume (drain f buffer) more
unfolding push
append_partial f g buffer more e q = rw (drain_partial f buffer e) (
    drain_fuel g (length (buffer ++ more)) (buffer ++ more) q (omega arith)
    ∙ sym (append_events-nil (drain (length (buffer ++ more)) (buffer ++ more))))

drain-append :
    (f g : ℕ) (buffer more : Bytes)
    → length buffer ≤ f
    → length (buffer ++ more) ≤ g
    → drain g (buffer ++ more) ≡ resume (drain f buffer) more
drain-append zero g buffer more p q = append_partial zero g buffer more (next_frame-nil buffer p) q
drain-append (suc f) zero buffer more p q =
    append_partial (suc f) zero buffer more
      (next_frame-nil buffer (omega (arith, length-append buffer more))) q
drain-append (suc f) (suc g) buffer more p q = elim (Frame-cases (next_frame buffer)) [
  | inl e ↦ append_partial (suc f) (suc g) buffer more e q
  | inr (inl e) ↦
      drain_invalid g (buffer ++ more) (next_frame-append_invalid buffer more e)
      ∙ rw (drain_invalid f buffer e)
  | inr (inr (id, payload, rest, e)) ↦
      let shorter = next_frame-shorter buffer e in
      drain_frame g (buffer ++ more) (next_frame-append buffer more e)
      ∙ ap (emit (event id payload)) (
          drain-append f g rest more (omega arith)
            (omega (arith, length-append buffer more, length-append rest more)))
      ∙ rw (drain_frame f buffer e) (resume-emit (event id payload) (drain f rest) more)
]

-- Pushing two chunks one after the other does what pushing them as one chunk does: the same
-- callbacks in the same order, and the same pending bytes or the same error.
pub push-append :
    (pending chunk more : Bytes) → push pending (chunk ++ more) ≡ resume (push pending chunk) more
unfolding push
push-append pending chunk more = rw (← append_assoc pending chunk more) (
    drain-append (length (pending ++ chunk)) (length ((pending ++ chunk) ++ more))
      (pending ++ chunk) more (omega arith) (omega arith))

-- What is pending never holds a whole frame, nor an invalid one.
abbrev pub IsSettled : Pushed → Type 0
IsSettled (pushed es pending) = next_frame pending ≡ partial
IsSettled (failed es) = Unit

emit-IsSettled : (e : ShellEvent) (p : Pushed) → IsSettled p → IsSettled (emit e p)
unfolding emit
emit-IsSettled e (pushed es pending) s = s
emit-IsSettled e (failed es) s = tt

drain-IsSettled : (f : ℕ) (buffer : Bytes) → length buffer ≤ f → IsSettled (drain f buffer)
drain-IsSettled zero buffer h =
    let e = next_frame-nil buffer h in rw (drain_partial zero buffer e) e
drain-IsSettled (suc f) buffer h = elim (Frame-cases (next_frame buffer)) [
  | inl e ↦ rw (drain_partial (suc f) buffer e) e
  | inr (inl e) ↦ rw (drain_invalid f buffer e) tt
  | inr (inr (id, payload, rest, e)) ↦
      let shorter = next_frame-shorter buffer e in
      rw (drain_frame f buffer e)
        (emit-IsSettled (event id payload) (drain f rest) (drain-IsSettled f rest (omega arith)))
]

pub push-IsSettled : (pending chunk : Bytes) → IsSettled (push pending chunk)
unfolding push
push-IsSettled pending chunk =
    drain-IsSettled (length (pending ++ chunk)) (pending ++ chunk) (omega arith)

Pushed-cases :
    (p : Pushed)
    → ((es : List ShellEvent) × (pending : Bytes) × (p ≡ pushed es pending))
      ⊎ ((es : List ShellEvent) × (p ≡ failed es))
Pushed-cases (pushed es pending) = inl (es, pending, refl)
Pushed-cases (failed es) = inr (es, refl)

push-nil : (pending : Bytes) → next_frame pending ≡ partial → push pending [] ≡ pushed [] pending
unfolding push
push-nil pending e = rw (append-nil pending) (drain_partial (length pending) pending e)

-- Any list of chunks is decoded as the stream that it makes up: the cuts between chunks change
-- nothing, wherever they fall.
push_all-flatten :
    (pending : Bytes) (chunks : List Bytes)
    → next_frame pending ≡ partial
    → push_all pending chunks ≡ push pending (flatten chunks)
unfolding push_all flatten
push_all-flatten pending [] e = sym (push-nil pending e)
push_all-flatten pending (chunk ∷ chunks) e = elim (Pushed-cases (push pending chunk)) [
  | inl (es, pending', p) ↦
      let settled : next_frame pending' ≡ partial = rw p at (push-IsSettled pending chunk) in
      rw (push-append pending chunk (flatten chunks), p, push_all)
        (ap (append_events es) (push_all-flatten pending' chunks settled))
  | inr (es, p) ↦ rw (push-append pending chunk (flatten chunks), p, push_all)
]

-- What a device sends over the shell: standard output, standard error, and the exit of the command,
-- with the identifiers 1, 2 and 3.
pub data ShellFrame : Type 0 where
  stdout stderr exits : Bytes → ShellFrame

abbrev pub payload : ShellFrame → Bytes
payload (stdout data_bytes) = data_bytes
payload (stderr data_bytes) = data_bytes
payload (exits data_bytes) = data_bytes

abbrev pub identifier : ShellFrame → ℕ
identifier (stdout data_bytes) = 1
identifier (stderr data_bytes) = 2
identifier (exits data_bytes) = 3

-- The callback that a frame is for.
abbrev pub callback : ShellFrame → ShellEvent
callback (stdout data_bytes) = output data_bytes
callback (stderr data_bytes) = output data_bytes
callback (exits data_bytes) = exit

-- The packets of a list of frames, one after the other.
abbrev pub packets : List ShellFrame → Bytes
packets [] = []
packets (f ∷ frames) = shell_packet (identifier f) (payload f) ++ packets frames

abbrev pub IsSmall : ShellFrame → Type 0
IsSmall f = length (payload f) ≤ max_payload

event-callback : (f : ShellFrame) → event (identifier f) (payload f) ≡ callback f
unfolding event
event-callback (stdout data_bytes) = refl
event-callback (stderr data_bytes) = refl
event-callback (exits data_bytes) = refl

known_identifier : (f : ShellFrame) → (identifier f ≡ 1) ⊎ (identifier f ≡ 2) ⊎ (identifier f ≡ 3)
known_identifier (stdout data_bytes) = inl refl
known_identifier (stderr data_bytes) = inr (inl refl)
known_identifier (exits data_bytes) = inr (inr refl)

push-packets :
    (frames : List ShellFrame)
    → All IsSmall frames
    → push [] (packets frames) ≡ pushed (map callback frames) []
unfolding push
push-packets [] h = drain_partial 0 [] (next_frame-nil [] (omega arith))
push-packets (f ∷ frames) h =
    let whole = shell_packet (identifier f) (payload f) ++ packets frames in
    let e =
      next_frame-shell_packet (identifier f) (payload f) (packets frames) (known_identifier f)
        h.0 in
    let shorter = next_frame-shorter whole e in
    drain_fuel (length whole) (suc (length whole)) whole (omega arith) (omega arith)
    ∙ drain_frame (length whole) whole e
    ∙ ap (emit (event (identifier f) (payload f))) (
        drain_fuel (length whole) (length (packets frames)) (packets frames) (omega arith)
          (omega arith)
        ∙ push-packets frames h.1)
    ∙ ap (λ x. emit x (pushed (map callback frames) [])) (event-callback f)
    ∙ (unfold emit in refl)

-- Round trip: the packets of frames of at most 1 MiB, cut into chunks anywhere, decode to one callback
-- for each frame, in order: the output of its payload for standard output and standard error, and
-- exit for an exit; and nothing stays pending.
pub push_all-packets :
    (frames : List ShellFrame) (chunks : List Bytes)
    → All IsSmall frames
    → flatten chunks ≡ packets frames
    → push_all [] chunks ≡ pushed (map callback frames) []
push_all-packets frames chunks h e =
    push_all-flatten [] chunks (next_frame-nil [] (omega arith))
    ∙ ap (push []) e
    ∙ push-packets frames h

partial-short : (buffer : Bytes) → next_frame buffer ≡ partial → length buffer < max_payload + 5
unfolding next_frame
partial-short buffer e = ground arith

-- The decoder never keeps more than one frame's bytes: less than 1 MiB and five bytes are pending.
pub push-short :
    (pending chunk : Bytes) {es : List ShellEvent} {pending' : Bytes}
    → push pending chunk ≡ pushed es pending'
    → length pending' < max_payload + 5
push-short pending chunk {pending'} e =
    partial-short pending' (rw e at (push-IsSettled pending chunk))
