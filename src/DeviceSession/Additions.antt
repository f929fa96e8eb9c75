-- ===== src/DeviceSession/Additions.antt =====
-- What `write` and `sendPaste` of frontend/src/lib/device-session.ts do to the queue of writes.
use friendly_ai_explorer.Common.{
  ◌==◌, if◌then◌else◌, length, Bytes, ℕ, suc, ◌+◌, ◌≡◌, refl, subst, ◌⊎◌, inl, inr, Bool, true,
  false, not, ◌&&◌, ◌||◌, Option, none, some, List, [], ◌∷◌, ◌++◌,
}
use friendly_ai_explorer.TerminalPaste.{PasteOptions, Planned, ok, err, plan_paste}
use friendly_ai_explorer.DeviceSession.State.{
  DeviceSession, Work, Paste, PastePhase, opening_bracket, sending, delaying, closing_bracket,
  entering, is_connected,
}
use friendly_ai_explorer.DeviceSession.View.{refresh, cancel_paste}
use friendly_ai_explorer.DeviceSession.Writes.{
  add_work, enqueue_bytes, enqueue, encode, is_interrupt, is_pasting, or_same, write, write_bytes,
  same_token, connection_token,
}
use friendly_ai_explorer.DeviceSession.Paste.{
  bracket_open, bracket_close, finish_paste, await_write, paste_write, check_paste, is_live,
  end_paste, send_chunks, has_more, chunk_written, new_paste, begin_paste, begin_encoded, wake_at,
  wake_paste, press_enter, resume_at, resume_paste, encode_all, begin_planned, send_paste,
}
use friendly_ai_explorer.DeviceSession.Core.{Core, core, core-refresh}

abbrev pub new_work : Bytes → Core → Work
new_work bytes c = record {
  id = c.supply;
  bytes = bytes;
  generation = c.generation;
  writer = c.writer;
}

abbrev pub add_core : Bytes → Core → Core
add_core bytes c = record c { queue = c.queue ++ (new_work bytes c ∷ []); supply = suc c.supply }

-- At most one write was added, to a connected session.
abbrev pub Adds : Core → Core → Type 0
Adds c c' =
    (c' ≡ c) ⊎ ((is_connected c.status ≡ true) × ((bytes : Bytes) × (c' ≡ add_core bytes c)))

Adds-if :
    (b : Bool) (c : Core) (s t : DeviceSession)
    → Adds c (core s)
    → Adds c (core t)
    → Adds c (core (if b then s else t))
Adds-if true c s t p q = p
Adds-if false c s t p q = q

enqueue-Adds :
    (bytes : Option Bytes) (s : DeviceSession) → Adds (core s) (core (or_same s (enqueue bytes s)))
unfolding enqueue enqueue_bytes add_work or_same
enqueue-Adds bytes s = go bytes (is_connected s.state.status) refl
  where
    go :
        (bytes : Option Bytes) (b : Bool)
        → is_connected s.state.status ≡ b
        → Adds (core s) (core (or_same s (if not b then none else enqueue_bytes bytes s)))
    go bytes false e = inl refl
    go none true e = inl refl
    go (some bytes) true e = inr (e, (bytes, refl))

pub write_bytes-Adds :
    (bytes : Bytes) (s : DeviceSession) → Adds (core s) (core (write_bytes bytes s))
unfolding write_bytes
write_bytes-Adds bytes s =
    Adds-if (is_pasting s.paste) (core s) s (or_same s (enqueue (some bytes) s)) (inl refl)
      (enqueue-Adds (some bytes) s)

paste_write-Adds :
    (p : Paste) (phase : PastePhase) (bytes : Option Bytes) (s rejected : DeviceSession)
    → Adds (core s) (core rejected)
    → Adds (core s) (core (paste_write p phase bytes s rejected))
unfolding paste_write await_write enqueue enqueue_bytes add_work
paste_write-Adds p phase bytes s rejected a = go bytes (is_connected s.state.status) refl
  where
    waiting : Paste
    waiting = record p { phase = phase; awaiting = s.supply }

    go :
        (bytes : Option Bytes) (b : Bool)
        → is_connected s.state.status ≡ b
        → Adds
            (core s)
            (core (await_write waiting (if not b then none else enqueue_bytes bytes s) rejected))
    go bytes false e = a
    go none true e = a
    go (some bytes) true e = inr (e, (bytes, refl))

core-finish_paste : (now : ℕ) (s : DeviceSession) → core (finish_paste now s) ≡ core s
unfolding finish_paste
core-finish_paste now s =
    core-refresh now (record s { paste = none; state = record s.state { pasting = false } })

end_paste-Adds :
    (now : ℕ) (p : Paste) (s : DeviceSession) → Adds (core s) (core (end_paste now p s))
unfolding end_paste
end_paste-Adds now p s =
    let over : Adds (core s) (core (finish_paste now s)) = inl (core-finish_paste now s) in
    Adds-if (p.bracket_started && is_live p s) (core s)
      (paste_write p closing_bracket (some bracket_close) s (finish_paste now s))
      (finish_paste now s)
      (paste_write-Adds p closing_bracket (some bracket_close) s (finish_paste now s) over) over

send_chunks-Adds :
    (now : ℕ) (p : Paste) (chunks : List Bytes) (s : DeviceSession)
    → Adds (core s) (core (send_chunks now p chunks s))
unfolding send_chunks
send_chunks-Adds now p [] s =
    Adds-if (check_paste p s) (core s) (end_paste now (record p { completed = true }) s)
      (end_paste now p s) (end_paste-Adds now (record p { completed = true }) s)
      (end_paste-Adds now p s)
send_chunks-Adds now p (chunk ∷ chunks) s =
    let p1 : Paste = record p { current = chunk ∷ []; rest = chunks } in
    Adds-if (check_paste p s) (core s) (paste_write p1 sending (some chunk) s (end_paste now p s))
      (end_paste now p s)
      (paste_write-Adds p1 sending (some chunk) s (end_paste now p s) (end_paste-Adds now p s))
      (end_paste-Adds now p s)

chunk_written-Adds :
    (now : ℕ) (p : Paste) (s : DeviceSession) → Adds (core s) (core (chunk_written now p s))
unfolding chunk_written
chunk_written-Adds now p s =
    Adds-if (has_more p.rest && p.delayed) (core s)
      (record s1 { paste = some (record p1 { phase = delaying }) }) (send_chunks now p1 p.rest s1)
      (inl same)
      (subst (λ c. Adds c (core (send_chunks now p1 p.rest s1))) same
        (send_chunks-Adds now p1 p.rest s1))
  where
    p1 : Paste
    p1 = record p { written = p.written ++ p.current; current = [] }

    s0 : DeviceSession
    s0 = record s { state = record s.state { paste_sent = s.state.paste_sent + 1 } }

    s1 : DeviceSession
    s1 = refresh now s0

    same : core s1 ≡ core s
    same = core-refresh now s0

begin_paste-Adds :
    (now : ℕ) (o : PasteOptions) (token : ℕ × ℕ) (chunks : List Bytes) (s : DeviceSession)
    → Adds (core s) (core (begin_paste now o token chunks s))
unfolding begin_paste
begin_paste-Adds now o token chunks s =
    subst (λ c. Adds c (core (begin_paste now o token chunks s))) same
      (Adds-if o.bracketed (core s1)
        (paste_write p opening_bracket (some bracket_open) s1 (end_paste now p s1))
        (send_chunks now p chunks s1)
        (paste_write-Adds p opening_bracket (some bracket_open) s1 (end_paste now p s1)
          (end_paste-Adds now p s1))
        (send_chunks-Adds now p chunks s1))
  where
    p : Paste
    p = new_paste o token chunks

    s0 : DeviceSession
    s0 = record s {
      paste = some p;
      paste_aborted = false;
      state = record s.state { pasting = true; paste_sent = 0; paste_total = length chunks };
    }

    s1 : DeviceSession
    s1 = refresh now s0

    same : core s1 ≡ core s
    same = core-refresh now s0

pub wake_paste-Adds :
    (p : Option Paste) (now : ℕ) (s : DeviceSession) → Adds (core s) (core (wake_paste p now s))
unfolding wake_paste wake_at
wake_paste-Adds none now s = inl refl
wake_paste-Adds (some p) now s = go p.phase
  where
    go : (phase : PastePhase) → Adds (core s) (core (wake_at phase now p s))
    go delaying = send_chunks-Adds now p p.rest s
    go opening_bracket = inl refl
    go sending = inl refl
    go closing_bracket = inl refl
    go entering = inl refl

module _ (table : ℕ → ℕ → Option (List ℕ)) where
  press_enter-Adds :
      (now : ℕ) (p : Paste) (s : DeviceSession) → Adds (core s) (core (press_enter table now p s))
  unfolding press_enter
  press_enter-Adds now p s =
      let over : Adds (core s) (core (finish_paste now s)) = inl (core-finish_paste now s) in
      Adds-if (p.completed && p.append_enter && not s.paste_aborted) (core s)
        (paste_write p entering (encode table p.ending s) s (finish_paste now s))
        (finish_paste now s)
        (paste_write-Adds p entering (encode table p.ending s) s (finish_paste now s) over) over

  resume_at-Adds :
      (phase : PastePhase) (settled : Bool) (now : ℕ) (p : Paste) (s : DeviceSession)
      → Adds (core s) (core (resume_at table phase settled now p s))
  unfolding resume_at
  resume_at-Adds opening_bracket true now p s =
      send_chunks-Adds now (record p { bracket_started = true }) p.rest s
  resume_at-Adds opening_bracket false now p s = end_paste-Adds now p s
  resume_at-Adds sending true now p s = chunk_written-Adds now p s
  resume_at-Adds sending false now p s = end_paste-Adds now p s
  resume_at-Adds delaying settled now p s = inl refl
  resume_at-Adds closing_bracket true now p s = press_enter-Adds now p s
  resume_at-Adds closing_bracket false now p s = inl (core-finish_paste now s)
  resume_at-Adds entering settled now p s = inl (core-finish_paste now s)

  pub resume_paste-Adds :
      (p : Option Paste) (id : ℕ) (settled : Bool) (now : ℕ) (s : DeviceSession)
      → Adds (core s) (core (resume_paste table p id settled now s))
  unfolding resume_paste
  resume_paste-Adds none id settled now s = inl refl
  resume_paste-Adds (some p) id settled now s =
      Adds-if (p.awaiting == id) (core s) (resume_at table p.phase settled now p s) s
        (resume_at-Adds p.phase settled now p s) (inl refl)

  pub send_paste-Adds :
      (now : ℕ) (text : List ℕ) (o : PasteOptions) (token : ℕ × ℕ) (s : DeviceSession)
      → Adds (core s) (core (or_same s (send_paste table now text o token s)))
  unfolding send_paste begin_planned begin_encoded or_same
  send_paste-Adds now text o token s =
      go
        (is_pasting s.paste
          || not (is_connected s.state.status)
          || not (same_token token (connection_token s)))
        (plan_paste text
          (record o { append_enter = if o.bracketed then false else o.append_enter }))
    where
      encoded :
          (chunks : Option (List Bytes))
          → Adds (core s) (core (or_same s (begin_encoded now o token chunks s)))
      encoded none = inl refl
      encoded (some chunks) = begin_paste-Adds now o token chunks s

      go :
          (b : Bool) (planned : Planned)
          → Adds
              (core s)
              (core (or_same s (if b then none else begin_planned table now o token planned s)))
      go true planned = inl refl
      go false (err e) = inl refl
      go false (ok chunks) = encoded (encode_all table chunks s)

  pub write-Adds : (text : List ℕ) (s : DeviceSession) → Adds (core s) (core (write table text s))
  unfolding write cancel_paste
  write-Adds text s =
      let s1 : DeviceSession = record s { paste_aborted = true } in
      Adds-if (is_interrupt text) (core s) (or_same s1 (enqueue (encode table text s1) s1))
        (if is_pasting s.paste then s else or_same s (enqueue (encode table text s) s))
        (enqueue-Adds (encode table text s1) s1)
        (Adds-if (is_pasting s.paste) (core s) s (or_same s (enqueue (encode table text s) s))
          (inl refl) (enqueue-Adds (encode table text s) s))
