-- ===== src/DeviceSession/PastePlan.antt =====
-- The plan of a paste, and the steps of `sendPaste` of frontend/src/lib/device-session.ts.
use friendly_ai_explorer.Common.{
  if◌then◌else◌, length, Bytes, ℕ, ◌==◌, ◌≡◌, refl, ap, arith, sym, ap₂, subst, ◌∙◌, Bool, true,
  false, not, ◌&&◌, Option, none, some, List, [], ◌∷◌, ◌++◌, append-nil, append_assoc,
}
use friendly_ai_explorer.DeviceSession.State.{
  DeviceSession, Work, Paste, PastePhase, opening_bracket, sending, delaying, closing_bracket,
  entering, is_connected,
}
use friendly_ai_explorer.DeviceSession.Writes.{add_work, enqueue_bytes, enqueue}
use friendly_ai_explorer.DeviceSession.Paste.{
  bracket_close, finish_paste, await_write, paste_write, check_paste, is_live, end_paste,
  send_chunks,
}
use friendly_ai_explorer.DeviceSession.PasteKept.{PasteView, view, view-refresh}

-- The phases between two chunks.
unfoldable pub is_between : PastePhase → Bool
is_between opening_bracket = true
is_between delaying = true
is_between _ = false

-- The chunks of a paste are those that were written, the one that is being written, and the rest; what
-- the session shows is how many were written, and how many there are.
pub record IsSplit (sent total : ℕ) (p : Paste) : Type 0 where
  pub parts : p.written ++ (p.current ++ p.rest) ≡ p.chunks
  pub counts : sent ≡ length p.written
  pub whole : total ≡ length p.chunks
  pub done : p.completed ≡ true → p.written ≡ p.chunks

-- A write with this number is in the queue, and its bytes are the only chunk of `current`.
abbrev pub IsQueued : ℕ → List Bytes → List Work → Type 0
IsQueued id current queue =
    (before : List Work) × (w : Work) × (after : List Work) × (queue ≡ before ++ (w ∷ after))
    × (w.id ≡ id)
    × (current ≡ w.bytes ∷ [])

pub IsQueued-append :
    (id : ℕ) (current : List Bytes) (queue more : List Work)
    → IsQueued id current queue
    → IsQueued id current (queue ++ more)
IsQueued-append id current queue more (before, w, after, e, same, c) =
    (before, w, after ++ more, rw e (append_assoc before (w ∷ after) more), same, c)

pub IsQueued-tail :
    (id : ℕ) (current : List Bytes) (v : Work) (queue : List Work)
    → (id == v.id) ≡ false
    → IsQueued id current (v ∷ queue)
    → IsQueued id current queue
IsQueued-tail id current v queue n ([], w, after, e, same, c) =
    let head : v ≡ w = cc e in
    let own : v.id ≡ id = ap {A = Work} (λ x. x.id) head ∙ same in absurd (ground arith)
IsQueued-tail id current v queue n (b ∷ before, w, after, e, same, c) =
    (before, w, after, cc e, same, c)

pub record IsPlan (queue : List Work) (sent total : ℕ) (p : Paste) : Type 0 where
  pub queued : p.phase ≡ sending → IsQueued p.awaiting p.current queue
  pub split : IsSplit sent total p
  pub one : p.phase ≡ sending → length p.current ≡ 1
  pub between : is_between p.phase ≡ true → p.current ≡ []
  pub entered : p.phase ≡ entering → p.written ≡ p.chunks

-- What a paste waits for does not matter.
pub IsSplit-phase :
    (sent total : ℕ) (p : Paste) (phase : PastePhase) (id : ℕ)
    → IsSplit sent total p
    → IsSplit sent total (record p { phase = phase; awaiting = id })
IsSplit-phase sent total p phase id i = record {
  parts = i.parts;
  counts = i.counts;
  whole = i.whole;
  done = i.done;
}

abbrev pub IsPlanned : PasteView → Type 0
IsPlanned v = (p : Paste) → v.paste ≡ some p → IsPlan v.queue v.sent v.total p

pub IsPlanned-if :
    (b : Bool) (s t : DeviceSession)
    → IsPlanned (view s)
    → IsPlanned (view t)
    → IsPlanned (view (if b then s else t))
IsPlanned-if true s t i j = i
IsPlanned-if false s t i j = j

pub some-IsPlanned :
    (queue : List Work) (sent total : ℕ) (p q : Paste)
    → some p ≡ some q
    → IsPlan queue sent total p
    → IsPlan queue sent total q
some-IsPlanned queue sent total p q e i =
    let same : p ≡ q = cc e in subst (IsPlan queue sent total) same i

-- The queue may change as long as the awaited chunk stays in it.
pub requeue :
    (queue queue' : List Work) (sent total : ℕ) (p : Paste)
    → IsPlan queue sent total p
    → (p.phase ≡ sending → IsQueued p.awaiting p.current queue')
    → IsPlan queue' sent total p
requeue queue queue' sent total p i q = record {
  queued = q;
  split = i.split;
  one = i.one;
  between = i.between;
  entered = i.entered;
}

abbrev pub work_of : Bytes → DeviceSession → Work
work_of bytes s = record {
  id = s.supply;
  bytes = bytes;
  generation = s.generation;
  writer = s.writer;
}

pub paste_write-IsPlanned :
    (p : Paste) (phase : PastePhase) (bytes : Option Bytes) (s rejected : DeviceSession)
    → ((b : Bytes)
        → bytes ≡ some b
        → IsPlan
            (s.queue ++ (work_of b s ∷ []))
            s.state.paste_sent
            s.state.paste_total
            (record p { phase = phase; awaiting = s.supply }))
    → IsPlanned (view rejected)
    → IsPlanned (view (paste_write p phase bytes s rejected))
unfolding paste_write await_write enqueue enqueue_bytes add_work
paste_write-IsPlanned p phase bytes s rejected i r = go bytes (is_connected s.state.status) refl
  where
    waiting : Paste
    waiting = record p { phase = phase; awaiting = s.supply }

    go :
        (o : Option Bytes) (b : Bool)
        → bytes ≡ o
        → IsPlanned
            (view (await_write waiting (if not b then none else enqueue_bytes o s) rejected))
    go o false k = r
    go none true k = r
    go (some x) true k = λ q e.
        some-IsPlanned (s.queue ++ (work_of x s ∷ [])) s.state.paste_sent s.state.paste_total
          waiting q e (i x k)

pub finish_paste-IsPlanned : (now : ℕ) (s : DeviceSession) → IsPlanned (view (finish_paste now s))
unfolding finish_paste
finish_paste-IsPlanned now s =
    subst IsPlanned
      (sym
        (view-refresh now (record s { paste = none; state = record s.state { pasting = false } })))
      (λ q e. absurd (cc e))

pub end_paste-IsPlanned :
    (now : ℕ) (p : Paste) (s : DeviceSession)
    → IsSplit s.state.paste_sent s.state.paste_total p
    → IsPlanned (view (end_paste now p s))
unfolding end_paste is_between
end_paste-IsPlanned now p s i =
    let over : IsPlanned (view (finish_paste now s)) = finish_paste-IsPlanned now s in
    IsPlanned-if (p.bracket_started && is_live p s)
      (paste_write p closing_bracket (some bracket_close) s (finish_paste now s))
      (finish_paste now s)
      (paste_write-IsPlanned p closing_bracket (some bracket_close) s (finish_paste now s)
        (λ b k. record {
          queued = λ e. absurd (cc e);
          split = IsSplit-phase s.state.paste_sent s.state.paste_total p closing_bracket s.supply i;
          one = λ e. absurd (cc e);
          between = λ e. absurd (cc e);
          entered = λ e. absurd (cc e);
        })
        over)
      over

pub send_chunks-IsPlanned :
    (now : ℕ) (p : Paste) (chunks : List Bytes) (s : DeviceSession)
    → p.rest ≡ chunks
    → p.current ≡ []
    → IsSplit s.state.paste_sent s.state.paste_total p
    → IsPlanned (view (send_chunks now p chunks s))
unfolding send_chunks is_between
send_chunks-IsPlanned now p [] s e c i =
    let all : p.written ≡ p.chunks =
      sym (append-nil p.written) ∙ sym (ap₂ (λ xs ys. p.written ++ (xs ++ ys)) c e) ∙ i.parts in
    IsPlanned-if (check_paste p s) (end_paste now (record p { completed = true }) s)
      (end_paste now p s)
      (end_paste-IsPlanned now (record p { completed = true }) s
        (record { parts = i.parts; counts = i.counts; whole = i.whole; done = λ k. all }))
      (end_paste-IsPlanned now p s i)
send_chunks-IsPlanned now p (chunk ∷ chunks) s e c i =
    let p1 : Paste = record p { current = chunk ∷ []; rest = chunks } in
    let same : p.written ++ (chunk ∷ chunks) ≡ p.chunks =
      sym (ap₂ (λ xs ys. p.written ++ (xs ++ ys)) c e) ∙ i.parts in
    IsPlanned-if (check_paste p s) (paste_write p1 sending (some chunk) s (end_paste now p s))
      (end_paste now p s)
      (paste_write-IsPlanned p1 sending (some chunk) s (end_paste now p s)
        (λ b m. record {
          queued = λ k. (s.queue, work_of b s, [], refl, refl, cc m);
          split = record { parts = same; counts = i.counts; whole = i.whole; done = i.done };
          one = λ k. refl;
          between = λ k. absurd (cc k);
          entered = λ k. absurd (cc k);
        })
        (end_paste-IsPlanned now p s i))
      (end_paste-IsPlanned now p s i)
