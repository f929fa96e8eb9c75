-- ===== src/RemotePress/Control.antt =====
-- The controller of frontend/src/lib/remote-press.ts with its clock and its writes.
use friendly_ai_explorer.Common.{
  ◌==◌, if◌then◌else◌, get_elem?, Bytes, ℕ, zero, suc, Bool, true, false, not, ◌&&◌, ◌||◌, Option,
  none, some, List, [], ◌∷◌, ◌++◌,
}
use friendly_ai_explorer.RemotePress.Keys.{RemoteKey, remote_command, is_repeatable}

pub record Press : Type 0 where
  pub token : ℕ
  pub key : RemoteKey

-- A write under way: of the first command of a press, or of a repeat.
pub record Flight : Type 0 where
  pub press : Press
  pub first : Bool

pub record Timer : Type 0 where
  pub handle : ℕ
  pub press : Press
  pub delay : ℕ

-- `held`, `timer` and `disposed` are the controller's; the rest is the clock, the writes under way, a
-- supply of identities, and a record of what was sent.
pub record Remote : Type 0 where
  pub held : Option Press
  pub timer : Option ℕ
  pub disposed : Bool
  pub pending : List Timer
  pub flights : List Flight
  pub supply : ℕ
  pub transmitted : List Bytes

unfoldable pub clear_timeout : Option ℕ → List Timer → List Timer
clear_timeout none timers = timers
clear_timeout (some handle) [] = []
clear_timeout (some handle) (t ∷ timers) =
    let rest = clear_timeout (some handle) timers in if t.handle == handle then rest else t ∷ rest

unfoldable pub stop : Remote → Remote
stop s = record s { held = none; timer = none; pending = clear_timeout s.timer s.pending }

unfoldable pub is_held : Press → Option Press → Bool
is_held press none = false
is_held press (some held) = held.token == press.token

-- `transmit` up to its await; without a write it returns false at once.
unfoldable pub transmit_bytes : Option Bytes → Bool → Flight → Remote → Remote
transmit_bytes none connected flight s = s
transmit_bytes (some bytes) connected flight s =
    if s.disposed then s else if not connected then stop s else record s {
      flights = s.flights ++ (flight ∷ []);
      transmitted = s.transmitted ++ (bytes ∷ []);
    }

unfoldable pub transmit : Bool → Flight → Remote → Remote
transmit connected flight s = transmit_bytes (remote_command flight.press.key) connected flight s

unfoldable pub start_with : Option Bytes → Bool → RemoteKey → Remote → Remote
start_with none connected key s = s
start_with (some bytes) connected key s =
    let press : Press = record { token = s.supply; key = key } in
    transmit connected (record { press = press; first = true })
      (record s { held = some press; supply = suc s.supply })

unfoldable pub start : Bool → RemoteKey → Remote → Remote
start connected key s =
    if s.disposed then s else start_with (remote_command key) connected key (stop s)

unfoldable pub repeat : Bool → Press → Remote → Remote
repeat connected press s =
    if s.disposed || not (is_held press s.held)
    then record s { timer = none }
    else transmit connected (record { press = press; first = false }) (record s { timer = none })

-- After a write that succeeded: the next command of a press that is still held is 450 ms away, or
-- 180 ms after a repeat.
unfoldable pub schedule : Flight → Remote → Remote
schedule flight s =
    let timer : Timer = record {
      handle = s.supply;
      press = flight.press;
      delay = if flight.first then 450 else 180;
    } in
    if not s.disposed
      && is_held flight.press s.held
      && (not flight.first || is_repeatable flight.press.key)
    then record s {
      timer = some s.supply;
      pending = s.pending ++ (timer ∷ []);
      supply = suc s.supply;
    }
    else s

unfoldable pub dispose : Remote → Remote
dispose s = stop (record s { disposed = true })

abbrev pub remove_at {ℓ} : {A : Type ℓ} → List A → ℕ → List A
remove_at [] n = []
remove_at (x ∷ xs) zero = xs
remove_at (x ∷ xs) (suc n) = x ∷ remove_at xs n

-- A timer of the clock fires; a write ends, well or not.
unfoldable pub fire_timer : Option Timer → Bool → Remote → Remote
fire_timer none connected s = s
fire_timer (some t) connected s = repeat connected t.press s

unfoldable pub fire : ℕ → Bool → Remote → Remote
fire n connected s =
    fire_timer (get_elem? s.pending n) connected (record s { pending = remove_at s.pending n })

unfoldable pub end_flight : Option Flight → Bool → Remote → Remote
end_flight none written s = s
end_flight (some flight) true s = schedule flight s
end_flight (some flight) false s = stop s

unfoldable pub finish : ℕ → Bool → Remote → Remote
finish n written s =
    end_flight (get_elem? s.flights n) written (record s { flights = remove_at s.flights n })

pub data RemoteEvent : Type 0 where
  starts : Bool → RemoteKey → RemoteEvent
  fires : ℕ → Bool → RemoteEvent
  finishes : ℕ → Bool → RemoteEvent
  stops disposes : RemoteEvent

unfoldable pub react : RemoteEvent → Remote → Remote
react (starts connected key) s = start connected key s
react (fires n connected) s = fire n connected s
react (finishes n written) s = finish n written s
react stops s = stop s
react disposes s = dispose s

unfoldable pub react_all : List RemoteEvent → Remote → Remote
react_all [] s = s
react_all (e ∷ es) s = react_all es (react e s)

unfoldable pub controller : Remote
controller = record {
  held = none;
  timer = none;
  disposed = false;
  pending = [];
  flights = [];
  supply = 0;
  transmitted = [];
}
