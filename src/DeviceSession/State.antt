-- ===== src/DeviceSession/State.antt =====
-- The fields of `DeviceSession` in frontend/src/lib/device-session.ts. A port, a writer and a paste's
-- controller are identities. The connection tasks are the calls of `connect` that wait, and the reader
-- is `serialReadTask`, each with what it waits for. `writing` says that the first write of the queue
-- was handed to the writer; `delivered`, a ghost, has all of these.
use friendly_ai_explorer.Common.{
  ◌==◌, length, drop, Bytes, ℕ, ◌-◌, Bool, true, false, ◌&&◌, Option, none, List, [], ◌∷◌,
}
use friendly_ai_explorer.LogFormatter.{RecordingOptions}
use friendly_ai_explorer.SerialText.{SendEncoding, utf_8}

-- A session over a Web Serial port; the kind "adb", whose connection has a shell in the place of a
-- writer and a reader, is not modelled.
pub data ConnectionKind : Type 0 where
  serial remote : ConnectionKind

pub data Parity : Type 0 where
  no_parity even odd : Parity

pub data FlowControl : Type 0 where
  no_flow hardware : FlowControl

pub record SerialSettings : Type 0 where
  pub baud_rate : ℕ
  pub data_bits : ℕ
  pub stop_bits : ℕ
  pub parity : Parity
  pub flow_control : FlowControl

abbrev pub default_serial : SerialSettings
default_serial = record {
  baud_rate = 921600;
  data_bits = 8;
  stop_bits = 1;
  parity = no_parity;
  flow_control = no_flow;
}

pub data SessionStatus : Type 0 where
  disconnected connecting connected reconnecting disconnecting error : SessionStatus

pub data EventStatus : Type 0 where
  status_of : SessionStatus → EventStatus
  warning : EventStatus

pub record SessionEvent : Type 0 where
  pub at : ℕ
  pub status : EventStatus
  pub detail : List ℕ

pub record Annotation : Type 0 where
  pub at : ℕ
  pub text : List ℕ

-- `state`
pub record SessionState : Type 0 where
  pub status : SessionStatus
  pub error : List ℕ
  pub warning : List ℕ
  pub revision : ℕ
  pub pasting : Bool
  pub paste_sent : ℕ
  pub paste_total : ℕ

pub record Metrics : Type 0 where
  pub started : ℕ
  pub received : ℕ
  pub transmitted : ℕ
  pub read_recoveries : ℕ
  pub reconnects : ℕ

abbrev pub no_metrics : Metrics
no_metrics = record {
  started = 0;
  received = 0;
  transmitted = 0;
  read_recoveries = 0;
  reconnects = 0;
}

-- A write in the queue: the bytes, and the generation and the writer that it was made for.
pub record Work : Type 0 where
  pub id : ℕ
  pub bytes : Bytes
  pub generation : ℕ
  pub writer : Option ℕ

-- What `sendPaste` waits for: its opening bracket, a chunk, the delay between two chunks, its closing
-- bracket, or the final Enter.
pub data PastePhase : Type 0 where
  opening_bracket sending delaying closing_bracket entering : PastePhase

-- The variables of a call of `sendPaste`. `rest` are the chunks from the next index on; the chunks
-- that were written are kept as a ghost, and so are all of them.
pub record Paste : Type 0 where
  pub token : ℕ × ℕ
  pub bracketed : Bool
  pub append_enter : Bool
  pub delayed : Bool
  pub ending : List ℕ
  pub phase : PastePhase
  pub awaiting : ℕ
  pub bracket_started : Bool
  pub completed : Bool
  pub current : List Bytes
  pub rest : List Bytes
  pub written : List Bytes
  pub chunks : List Bytes

-- What a call of `connect` waits for: the choice of a port, or its opening.
pub data ConnectPhase : Type 0 where
  requesting opening : ConnectPhase

pub record ConnectTask : Type 0 where
  pub generation : ℕ
  pub phase : ConnectPhase

-- What follows the end of a disconnection: the connection that waited for it, or the report of the
-- error that led to it.
pub data Continuation : Type 0 where
  connects_with : SerialSettings → Continuation
  reports : List ℕ → Continuation

-- What `readSerial` waits for: data, the release of the lost port, a delay, the port to open again.
pub data ReadPhase : Type 0 where
  reading releasing : ReadPhase
  waiting reopening : ℕ → ReadPhase

pub record Reader : Type 0 where
  pub generation : ℕ
  pub phase : ReadPhase

pub record DeviceSession : Type 0 where
  pub kind : ConnectionKind
  pub profile_name : List ℕ
  pub line_ending : List ℕ
  pub paste_delay_ms : ℕ
  pub recording_options : RecordingOptions
  pub transport_version : ℕ
  pub paste : Option Paste
  pub paste_aborted : Bool
  pub cols : ℕ
  pub rows : ℕ
  pub metrics : Metrics
  pub events : List SessionEvent
  pub annotations : List Annotation
  pub ended : ℕ
  pub send_encoding : SendEncoding
  pub state : SessionState
  pub port : Option ℕ
  pub writer : Option ℕ
  pub queue : List Work
  pub writing : Bool
  pub delivered : List Work
  pub transcript : List ℕ
  pub hex : Bool
  pub closing : Bool
  pub disconnect_task : Bool
  pub after_disconnect : List Continuation
  pub generation : ℕ
  pub connects : List ConnectTask
  pub reader : Option Reader
  pub serial_settings : SerialSettings
  pub supply : ℕ

-- The constructor. The remote control's relay runs at 9600 baud.
unfoldable pub settings_of : ConnectionKind → SerialSettings
settings_of remote = record default_serial { baud_rate = 9600 }
settings_of serial = default_serial

unfoldable pub session : ConnectionKind → DeviceSession
session kind = record {
  kind = kind;
  profile_name = [];
  line_ending = 13 ∷ 10 ∷ [];
  paste_delay_ms = 50;
  recording_options = record { raw = false; timestamps = false; rotate_mib = 4 };
  transport_version = 0;
  paste = none;
  paste_aborted = false;
  cols = 80;
  rows = 24;
  metrics = no_metrics;
  events = [];
  annotations = [];
  ended = 0;
  send_encoding = utf_8;
  state = record {
    status = disconnected;
    error = [];
    warning = [];
    revision = 0;
    pasting = false;
    paste_sent = 0;
    paste_total = 0;
  };
  port = none;
  writer = none;
  queue = [];
  writing = false;
  delivered = [];
  transcript = [];
  hex = false;
  closing = false;
  disconnect_task = false;
  after_disconnect = [];
  generation = 0;
  connects = [];
  reader = none;
  serial_settings = settings_of kind;
  supply = 0;
}

unfoldable pub is_connected : SessionStatus → Bool
is_connected connected = true
is_connected _ = false

-- `["disconnected", "error"].includes(status)`
unfoldable pub is_offline : SessionStatus → Bool
is_offline disconnected = true
is_offline error = true
is_offline _ = false

unfoldable pub same_status : SessionStatus → SessionStatus → Bool
same_status disconnected disconnected = true
same_status connecting connecting = true
same_status connected connected = true
same_status reconnecting reconnecting = true
same_status disconnecting disconnecting = true
same_status error error = true
same_status _ _ = false

unfoldable pub same_text : List ℕ → List ℕ → Bool
same_text [] [] = true
same_text (c ∷ cs) (d ∷ ds) = c == d && same_text cs ds
same_text _ _ = false

-- `list.slice(-n)`
unfoldable pub last_of {ℓ} : {A : Type ℓ} → ℕ → List A → List A
last_of n xs = drop (length xs - n) xs
