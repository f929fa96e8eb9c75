-- ===== src/UploadManager/Jobs.antt =====
-- The list of uploads of frontend/src/lib/upload-manager.ts: its jobs, their files and abort signals,
-- and the loop that performs the queued ones. A key, a user, a file and an abort controller are
-- identities; the text of a job, its speed, its options, the callbacks and the promise of its caller
-- are left out.
use friendly_ai_explorer.Common.{
  ◌==◌, if◌then◌else◌, ℕ, suc, ◌+◌, ◌*◌, ◌/◌, max, Bool, true, false, not, ◌&&◌, ◌||◌, Option, none,
  some, List, [], ◌∷◌, ◌++◌,
}
use friendly_ai_explorer.UploadManager.Transfer.{
  UploadReceipt, Part, is_active, is_skipped, is_done,
}

pub data JobPhase : Type 0 where
  queued hashing uploading saving complete skipped paused error cancelled : JobPhase

pub record UploadJob : Type 0 where
  pub key : ℕ
  pub size : ℕ
  pub phase : JobPhase
  pub percent : ℕ
  pub server : Option UploadReceipt
  pub needs_file : Bool

pub record Runtime : Type 0 where
  pub file : Option ℕ
  pub abort : Option ℕ

-- The call of `perform` that is not done: its job, its controller, and the epoch in which it began.
pub record Perform : Type 0 where
  pub key : ℕ
  pub controller : ℕ
  pub generation : ℕ

-- The variables of the module. `aborted` are the controllers that were aborted, `flight` is the call of
-- `perform` that the loop waits for, and `deletes` are the calls of `cancel` that wait for the server.
pub record Uploads : Type 0 where
  pub jobs : List UploadJob
  pub runtime : List (ℕ × Runtime)
  pub owner : Option ℕ
  pub running : Bool
  pub epoch : ℕ
  pub revision : ℕ
  pub aborted : List ℕ
  pub flight : Option Perform
  pub deletes : List ℕ
  pub supply : ℕ

unfoldable pub no_uploads : Uploads
no_uploads = record {
  jobs = [];
  runtime = [];
  owner = none;
  running = false;
  epoch = 0;
  revision = 0;
  aborted = [];
  flight = none;
  deletes = [];
  supply = 0;
}

unfoldable pub is_queued : JobPhase → Bool
is_queued queued = true
is_queued _ = false

-- `current?.phase === "cancelled" || current?.phase === "paused"`
unfoldable pub is_halted : JobPhase → Bool
is_halted cancelled = true
is_halted paused = true
is_halted _ = false

unfoldable pub update_jobs : ℕ → (UploadJob → UploadJob) → List UploadJob → List UploadJob
update_jobs key patch [] = []
update_jobs key patch (j ∷ jobs) =
    (if j.key == key then patch j else j) ∷ update_jobs key patch jobs

unfoldable pub update_job : ℕ → (UploadJob → UploadJob) → Uploads → Uploads
update_job key patch m = record m { jobs = update_jobs key patch m.jobs }

unfoldable pub set_phase : JobPhase → UploadJob → UploadJob
set_phase phase j = record j { phase = phase }

unfoldable pub find_job : (UploadJob → Bool) → List UploadJob → Option UploadJob
find_job test [] = none
find_job test (j ∷ jobs) = if test j then some j else find_job test jobs

unfoldable pub remove_job : ℕ → List UploadJob → List UploadJob
remove_job key [] = []
remove_job key (j ∷ jobs) =
    let rest = remove_job key jobs in if j.key == key then rest else j ∷ rest

unfoldable pub get_item : ℕ → List (ℕ × Runtime) → Option Runtime
get_item key [] = none
get_item key ((k, item) ∷ items) = if k == key then some item else get_item key items

unfoldable pub set_item : ℕ → Runtime → List (ℕ × Runtime) → List (ℕ × Runtime)
set_item key item [] = (key, item) ∷ []
set_item key item ((k, old) ∷ items) =
    let rest = set_item key item items in if k == key then (k, item) ∷ items else (k, old) ∷ rest

unfoldable pub remove_item : ℕ → List (ℕ × Runtime) → List (ℕ × Runtime)
remove_item key [] = []
remove_item key ((k, item) ∷ items) =
    let rest = remove_item key items in if k == key then rest else (k, item) ∷ rest

unfoldable pub file_of : Option Runtime → Option ℕ
file_of none = none
file_of (some item) = item.file

-- `item?.abort?.abort()`
unfoldable pub abort_item : Option Runtime → List ℕ → List ℕ
abort_item none aborted = aborted
abort_item (some item) aborted = add item.abort
  where
    add : Option ℕ → List ℕ
    add none = aborted
    add (some controller) = controller ∷ aborted

unfoldable pub abort_all : List (ℕ × Runtime) → List ℕ → List ℕ
abort_all [] aborted = aborted
abort_all ((k, item) ∷ items) aborted = abort_all items (abort_item (some item) aborted)

-- `bind` up to its request.
unfoldable pub bind : Option ℕ → Uploads → Uploads
bind user m = record m {
  jobs = [];
  runtime = [];
  owner = user;
  epoch = suc m.epoch;
  aborted = abort_all m.runtime m.aborted;
}

unfoldable pub sum_sizes : List Part → ℕ
sum_sizes [] = 0
sum_sizes (p ∷ ps) = p.size + sum_sizes ps

-- A job of an earlier session, from its receipt and the size of its file. The percentage is exact,
-- where the source rounds a floating-point quotient.
unfoldable pub restored_job : UploadReceipt × ℕ → UploadJob
restored_job (t, size) = record {
  key = t.id;
  size = size;
  phase = if is_active t.status then paused else if is_skipped t.status then skipped else complete;
  percent = if is_active t.status then sum_sizes t.parts * 100 / max 1 size else 100;
  server = some t;
  needs_file = is_active t.status;
}

unfoldable pub has_server : ℕ → Option UploadReceipt → Bool
has_server id none = false
has_server id (some t) = t.id == id

-- `jobs.some((j) => j.server?.id === t.id || j.key === t.id)`
unfoldable pub is_known : ℕ → List UploadJob → Bool
is_known id [] = false
is_known id (j ∷ jobs) = has_server id j.server || j.key == id || is_known id jobs

unfoldable pub restored_jobs : List UploadJob → List (UploadReceipt × ℕ) → List UploadJob
restored_jobs jobs [] = []
restored_jobs jobs ((t, size) ∷ ts) =
    let rest = restored_jobs jobs ts in
    if (is_active t.status || is_done t.status) && not (is_known t.id jobs)
    then restored_job (t, size) ∷ rest
    else rest

-- The rest of `bind`: the request of an epoch has been answered.
unfoldable pub restore : ℕ → List (UploadReceipt × ℕ) → Uploads → Uploads
restore generation ts m =
    if generation == m.epoch then record m { jobs = m.jobs ++ restored_jobs m.jobs ts } else m

-- `changed`
unfoldable pub changed : Uploads → Uploads
changed m = record m { revision = suc m.revision }
