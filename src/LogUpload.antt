-- ===== src/LogUpload.antt =====
-- `createLogUploadTask` of frontend/src/lib/log-upload-task.ts. An upload is a promise, named by its
-- abort controller: it may report progress and end at any time. The notices are a function from
-- identities to the state that each one shows; `add` draws a new identity. Errors are left out of the
-- state, and a reported percentage is a whole number.
pub mod Current
pub mod Examples
use friendly_ai_explorer.Common.{
  ltb, leb, ◌==◌, if◌then◌else◌, within, ltb→lt, lt→ltb, leb→le, ==_iff, Bool-cases, Option-cases,
  length, take, drop, replicate, set, get_elem?, get_or, length-append, length-take, length-drop,
  take-append-drop, take-length_append, drop-length_append, take-append_le, drop-append_le,
  get_or-append_lt, get_elem?-below, get_elem?-above, length-replicate, replicate-add, set-append,
  All, Any, All-append, flatten-append, any, includes, ℤ, Number, is_integer, number_below,
  number_above, natural, pos, negsuc, integer, fractional, Bytes, IsByte, le32, get_u32, utf8_char,
  utf8, utf8-append, utf16_length, is_space, trim_start, is_nil, trim_end, trim, ℕ, zero, suc, ◌+◌,
  ◌-◌, ◌*◌, ◌/◌, ◌%◌, ◌^◌, ◌≤◌, ◌<◌, min, max, pred, bit_and, bit_or, bit_xor, ◌≡◌, refl, sym, ap,
  ap₂, subst, ◌∙◌, ◌≡⟨◌⟩◌, ◌∎, ◌≢◌, ◌↔◌, ◌⊎◌, inl, inr, Bool, true, false, not, ◌&&◌, ◌||◌, Option,
  none, some, List, [], ◌∷◌, ◌++◌, map, append-nil, append_assoc, arith, flatten,
}

pub data UploadPhase : Type 0 where
  idle uploading success error cancelled empty : UploadPhase

pub record LogUploadState : Type 0 where
  pub phase : UploadPhase
  pub progress : Option ℕ
  pub filename : List ℕ
  pub revision : ℕ

pub record LogUploadTask : Type 0 where
  pub state : LogUploadState
  pub visible : Option ℕ
  pub abort : Option ℕ
  pub aborted : List ℕ
  pub uploads : List ℕ
  pub supply : ℕ
  pub notices : ℕ → Option LogUploadState

unfoldable pub task : LogUploadTask
task = record {
  state = record { phase = idle; progress = none; filename = []; revision = 0 };
  visible = none;
  abort = none;
  aborted = [];
  uploads = [];
  supply = 0;
  notices = λ id. none;
}

-- `!text.trim()`
unfoldable pub is_blank : List ℕ → Bool
is_blank [] = true
is_blank (c ∷ cs) = is_space c && is_blank cs

unfoldable pub is_uploading : UploadPhase → Bool
is_uploading uploading = true
is_uploading _ = false

unfoldable pub publish : LogUploadState → LogUploadTask → LogUploadTask
publish next s = record s { state = next }

unfoldable pub set_notice :
    ℕ → LogUploadState → (ℕ → Option LogUploadState) → ℕ → Option LogUploadState
set_notice id shown notices other = if other == id then some shown else notices other

unfoldable pub present_at : Option ℕ → LogUploadTask → LogUploadTask
present_at (some id) s = record s { notices = set_notice id s.state s.notices }
present_at none s = record s {
  notices = set_notice s.supply s.state s.notices;
  visible = some s.supply;
  supply = suc s.supply;
}

unfoldable pub present : LogUploadTask → LogUploadTask
present s = present_at s.visible s

unfoldable pub begin : LogUploadTask → LogUploadTask
begin s = record s {
  abort = some s.supply;
  uploads = s.supply ∷ s.uploads;
  supply = suc s.supply;
  visible = none;
  state = record {
    phase = uploading;
    progress = some 0;
    filename = [];
    revision = s.state.revision;
  };
}

unfoldable pub start : List ℕ → LogUploadTask → LogUploadTask
start text s =
    if is_uploading s.state.phase
    then present s
    else if is_blank text
    then present (record s { state = record s.state { phase = empty }; visible = none })
    else present (begin s)

unfoldable pub cancel_at : Option ℕ → LogUploadTask → LogUploadTask
cancel_at none s = s
cancel_at (some controller) s = record s { aborted = controller ∷ s.aborted }

unfoldable pub cancel : LogUploadTask → LogUploadTask
cancel s = cancel_at s.abort s

unfoldable pub is_current : Option ℕ → ℕ → Bool
is_current none controller = false
is_current (some current) controller = current == controller

-- `Math.max(0, Math.min(100, Math.floor(percent)))`
unfoldable pub clamp_percent : Option ℤ → Option ℕ
clamp_percent none = none
clamp_percent (some (pos n)) = some (min 100 n)
clamp_percent (some (negsuc n)) = some 0

unfoldable pub present_visible : Option ℕ → LogUploadTask → LogUploadTask
present_visible none s = s
present_visible (some id) s = present s

unfoldable pub report : ℕ → Option ℤ → LogUploadTask → LogUploadTask
report controller percent s =
    if includes s.aborted controller || not (is_current s.abort controller)
    then s
    else present_visible s.visible (publish (record s.state { progress = clamp_percent percent }) s)

-- How the promise of an upload ends.
pub data UploadEnd : Type 0 where
  resolved : List ℕ → UploadEnd
  rejected : UploadEnd

unfoldable pub final_state : UploadEnd → Bool → LogUploadState → LogUploadState
final_state (resolved filename) was_aborted st = record {
  phase = success;
  progress = some 100;
  filename = filename;
  revision = suc st.revision;
}
final_state rejected was_aborted st = record st { phase = if was_aborted then cancelled else error }

unfoldable pub without : ℕ → List ℕ → List ℕ
without n [] = []
without n (m ∷ ms) = let rest = without n ms in if m == n then rest else m ∷ rest

unfoldable pub finish_upload : ℕ → UploadEnd → LogUploadTask → LogUploadTask
finish_upload controller ending s = present (record s {
  state = final_state ending (includes s.aborted controller) s.state;
  abort = none;
  uploads = without controller s.uploads;
})

-- Only an upload that is under way can end.
unfoldable pub finish : ℕ → UploadEnd → LogUploadTask → LogUploadTask
finish controller ending s =
    if includes s.uploads controller then finish_upload controller ending s else s

-- `onClose` of the notice with this identity.
unfoldable pub close : ℕ → LogUploadTask → LogUploadTask
close id s = record s { visible = if is_current s.visible id then none else s.visible }

pub data UploadEvent : Type 0 where
  starts : List ℕ → UploadEvent
  reports : ℕ → Option ℤ → UploadEvent
  finishes : ℕ → UploadEnd → UploadEvent
  closes : ℕ → UploadEvent
  cancels : UploadEvent

unfoldable pub react : UploadEvent → LogUploadTask → LogUploadTask
react (starts text) s = start text s
react (reports controller percent) s = report controller percent s
react (finishes controller ending) s = finish controller ending s
react (closes id) s = close id s
react cancels s = cancel s

unfoldable pub react_all : List UploadEvent → LogUploadTask → LogUploadTask
react_all [] s = s
react_all (e ∷ es) s = react_all es (react e s)
