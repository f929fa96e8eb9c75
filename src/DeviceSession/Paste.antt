-- ===== src/DeviceSession/Paste.antt =====
-- `sendPaste` of frontend/src/lib/device-session.ts, cut at its awaits.
use friendly_ai_explorer.Common.{
  ◌==◌, if◌then◌else◌, length, number_above, Bytes, ℕ, ◌+◌, Bool, true, false, not, ◌&&◌, ◌||◌,
  Option, none, some, List, [], ◌∷◌, ◌++◌,
}
use friendly_ai_explorer.TerminalPaste.{PasteOptions, Planned, ok, err, plan_paste}
use friendly_ai_explorer.DeviceSession.State.{
  DeviceSession, Paste, PastePhase, opening_bracket, sending, delaying, closing_bracket, entering,
  is_connected,
}
use friendly_ai_explorer.DeviceSession.View.{refresh}
use friendly_ai_explorer.DeviceSession.Writes.{
  connection_token, same_token, enqueue, encode, is_pasting,
}

-- "\\x1b[200~" and "\\x1b[201~"
abbrev pub bracket_open : Bytes
bracket_open = 27 ∷ 91 ∷ 50 ∷ 48 ∷ 48 ∷ 126 ∷ []

abbrev pub bracket_close : Bytes
bracket_close = 27 ∷ 91 ∷ 50 ∷ 48 ∷ 49 ∷ 126 ∷ []

-- The inner `finally`: the paste is over.
unfoldable pub finish_paste : ℕ → DeviceSession → DeviceSession
finish_paste now s =
    refresh now (record s { paste = none; state = record s.state { pasting = false } })

-- `await this.enqueue(...)`: the paste waits for its write, or goes on with the rejection.
unfoldable pub await_write : Paste → Option DeviceSession → DeviceSession → DeviceSession
await_write p none rejected = rejected
await_write p (some s) rejected = record s { paste = some p }

unfoldable pub paste_write :
    Paste → PastePhase → Option Bytes → DeviceSession → DeviceSession → DeviceSession
paste_write p phase bytes s rejected =
    await_write (record p { phase = phase; awaiting = s.supply }) (enqueue bytes s) rejected

unfoldable pub is_live : Paste → DeviceSession → Bool
is_live p s = same_token p.token (connection_token s) && is_connected s.state.status

-- `check`
unfoldable pub check_paste : Paste → DeviceSession → Bool
check_paste p s = not s.paste_aborted && is_live p s

-- The outer `finally`.
unfoldable pub end_paste : ℕ → Paste → DeviceSession → DeviceSession
end_paste now p s =
    if p.bracket_started && is_live p s
    then paste_write p closing_bracket (some bracket_close) s (finish_paste now s)
    else finish_paste now s

-- From the head of the loop to the next await.
unfoldable pub send_chunks : ℕ → Paste → List Bytes → DeviceSession → DeviceSession
send_chunks now p [] s =
    if check_paste p s then end_paste now (record p { completed = true }) s else end_paste now p s
send_chunks now p (chunk ∷ chunks) s =
    if check_paste p s
    then paste_write (record p { current = chunk ∷ []; rest = chunks }) sending (some chunk) s
        (end_paste now p s)
    else end_paste now p s

-- After a chunk was written.
unfoldable pub has_more : List Bytes → Bool
has_more [] = false
has_more (chunk ∷ chunks) = true

unfoldable pub chunk_written : ℕ → Paste → DeviceSession → DeviceSession
chunk_written now p s =
    let p1 = record p { written = p.written ++ p.current; current = [] } in
    let s1 =
      refresh now (record s { state = record s.state { paste_sent = s.state.paste_sent + 1 } }) in
    if has_more p.rest && p.delayed
    then record s1 { paste = some (record p1 { phase = delaying }) }
    else send_chunks now p1 p.rest s1

abbrev pub new_paste : PasteOptions → ℕ × ℕ → List Bytes → Paste
new_paste o token chunks = record {
  token = token;
  bracketed = o.bracketed;
  append_enter = o.append_enter;
  delayed = number_above o.delay_ms 0;
  ending = o.ending;
  phase = delaying;
  awaiting = 0;
  bracket_started = false;
  completed = false;
  current = [];
  rest = chunks;
  written = [];
  chunks = chunks;
}

unfoldable pub begin_paste : ℕ → PasteOptions → ℕ × ℕ → List Bytes → DeviceSession → DeviceSession
begin_paste now o token chunks s =
    let p = new_paste o token chunks in
    let s1 = refresh now (record s {
      paste = some p;
      paste_aborted = false;
      state = record s.state { pasting = true; paste_sent = 0; paste_total = length chunks };
    }) in
    if o.bracketed
    then paste_write p opening_bracket (some bracket_open) s1 (end_paste now p s1)
    else send_chunks now p chunks s1

unfoldable pub begin_encoded :
    ℕ → PasteOptions → ℕ × ℕ → Option (List Bytes) → DeviceSession → Option DeviceSession
begin_encoded now o token none s = none
begin_encoded now o token (some chunks) s = some (begin_paste now o token chunks s)

-- The delay between two chunks is over, or `cancelPaste` has ended it.
unfoldable pub wake_at : PastePhase → ℕ → Paste → DeviceSession → DeviceSession
wake_at delaying now p s = send_chunks now p p.rest s
wake_at _ now p s = s

unfoldable pub wake_paste : Option Paste → ℕ → DeviceSession → DeviceSession
wake_paste none now s = s
wake_paste (some p) now s = wake_at p.phase now p s

module _ (table : ℕ → ℕ → Option (List ℕ)) where
  -- After the closing bracket was written.
  unfoldable pub press_enter : ℕ → Paste → DeviceSession → DeviceSession
  press_enter now p s =
      if p.completed && p.append_enter && not s.paste_aborted
      then paste_write p entering (encode table p.ending s) s (finish_paste now s)
      else finish_paste now s

  -- The write that the paste waits for has ended, well or not.
  unfoldable pub resume_at : PastePhase → Bool → ℕ → Paste → DeviceSession → DeviceSession
  resume_at opening_bracket true now p s =
      send_chunks now (record p { bracket_started = true }) p.rest s
  resume_at opening_bracket false now p s = end_paste now p s
  resume_at sending true now p s = chunk_written now p s
  resume_at sending false now p s = end_paste now p s
  resume_at delaying settled now p s = s
  resume_at closing_bracket true now p s = press_enter now p s
  resume_at closing_bracket false now p s = finish_paste now s
  resume_at entering settled now p s = finish_paste now s

  unfoldable pub resume_paste : Option Paste → ℕ → Bool → ℕ → DeviceSession → DeviceSession
  resume_paste none id settled now s = s
  resume_paste (some p) id settled now s =
      if p.awaiting == id then resume_at p.phase settled now p s else s

  unfoldable pub encode_all : List (List ℕ) → DeviceSession → Option (List Bytes)
  encode_all [] s = some []
  encode_all (chunk ∷ chunks) s = join_all (encode table chunk s) (encode_all chunks s)
    where
      join_all : Option Bytes → Option (List Bytes) → Option (List Bytes)
      join_all (some first) (some others) = some (first ∷ others)
      join_all _ _ = none

  unfoldable pub begin_planned :
      ℕ → PasteOptions → ℕ × ℕ → Planned → DeviceSession → Option DeviceSession
  begin_planned now o token (err e) s = none
  begin_planned now o token (ok chunks) s = begin_encoded now o token (encode_all chunks s) s

  -- `none` is an error before anything was sent.
  unfoldable pub send_paste :
      ℕ → List ℕ → PasteOptions → ℕ × ℕ → DeviceSession → Option DeviceSession
  send_paste now text o token s =
      if is_pasting s.paste
        || not (is_connected s.state.status)
        || not (same_token token (connection_token s))
      then none
      else begin_planned now o token
          (plan_paste text
            (record o { append_enter = if o.bracketed then false else o.append_enter }))
          s
