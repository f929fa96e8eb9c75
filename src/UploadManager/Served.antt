-- ===== src/UploadManager/Served.antt =====
-- The invariant of the list of uploads of frontend/src/lib/upload-manager.ts.
use friendly_ai_explorer.Common.{
  ◌==◌, if◌then◌else◌, ==_iff, All, ℕ, ◌≡◌, refl, sym, ap, subst, ◌∙◌, ◌≢◌, Bool, true, false,
  Option, none, some, List, [], ◌∷◌, arith,
}
use friendly_ai_explorer.UploadManager.Jobs.{
  hashing, UploadJob, Runtime, Perform, Uploads, is_queued, update_jobs, update_job, set_phase,
  find_job, remove_job, get_item, set_item, remove_item, file_of,
}
use friendly_ai_explorer.UploadManager.Pump.{perform, perform_next, next_job}

abbrev pub HasFile : ℕ → List (ℕ × Runtime) → Type 0
HasFile key items = (file : ℕ) × (file_of (get_item key items) ≡ some file)

abbrev pub IsFiled : List (ℕ × Runtime) → UploadJob → Type 0
IsFiled items j = is_queued j.phase ≡ true → HasFile j.key items

unfoldable pub is_busy : Option Perform → Bool
is_busy none = false
is_busy (some p) = true

pub record IsServed (m : Uploads) : Type 0 where
  pub files : All (IsFiled m.runtime) m.jobs
  pub works : m.running ≡ is_busy m.flight
  pub idle : m.running ≡ false → All (λ j. is_queued j.phase ≡ false) m.jobs

get-set_item :
    (k key : ℕ) (item : Runtime) (items : List (ℕ × Runtime))
    → get_item k (set_item key item items) ≡ (if key == k then some item else get_item k items)
unfolding get_item set_item
get-set_item k key item [] = refl
get-set_item k key item ((k0, old) ∷ items) = ground (arith, get-set_item k key item items)

get-remove_item :
    (k key : ℕ) (items : List (ℕ × Runtime))
    → k ≢ key
    → get_item k (remove_item key items) ≡ get_item k items
unfolding get_item remove_item
get-remove_item k key [] n = refl
get-remove_item k key ((k0, old) ∷ items) n = ground (arith, get-remove_item k key items n)

pub All-update :
    (P Q : UploadJob → Type 0) (key : ℕ) (patch : UploadJob → UploadJob) (jobs : List UploadJob)
    → ((j : UploadJob) → P j → Q j)
    → ((j : UploadJob) → j.key ≡ key → P j → Q (patch j))
    → All P jobs
    → All Q (update_jobs key patch jobs)
unfolding update_jobs
All-update P Q key patch [] f g h = tt
All-update P Q key patch (j ∷ jobs) f g h =
    (go (j.key == key) refl, All-update P Q key patch jobs f g h.1)
  where
    go : (b : Bool) → j.key == key ≡ b → Q (if b then patch j else j)
    go true e = g j ((==_iff j.key key).0 e) h.0
    go false e = f j h.0

pub All-remove_job :
    (P Q : UploadJob → Type 0) (key : ℕ) (jobs : List UploadJob)
    → ((j : UploadJob) → j.key ≢ key → P j → Q j)
    → All P jobs
    → All Q (remove_job key jobs)
unfolding remove_job
All-remove_job P Q key [] f h = tt
All-remove_job P Q key (j ∷ jobs) f h = go (j.key == key) refl (All-remove_job P Q key jobs f h.1)
  where
    go :
        (b : Bool)
        → j.key == key ≡ b
        → All Q (remove_job key jobs)
        → All Q (if b then remove_job key jobs else j ∷ remove_job key jobs)
    go true e rest = rest
    go false e rest = (f j (λ same. cc (sym e ∙ (==_iff j.key key).1 same)) h.0, rest)

-- A job that was found passes the test; if none is found, none does.
pub find_job-All :
    (P : UploadJob → Type 0) (test : UploadJob → Bool) (jobs : List UploadJob) (j : UploadJob)
    → find_job test jobs ≡ some j
    → All P jobs
    → P j × (test j ≡ true)
unfolding find_job
find_job-All P test [] j e h = absurd (cc e)
find_job-All P test (k ∷ jobs) j e h = go (test k) refl e (λ d. find_job-All P test jobs j d h.1)
  where
    go :
        (b : Bool)
        → test k ≡ b
        → (if b then some k else find_job test jobs) ≡ some j
        → (find_job test jobs ≡ some j → P j × (test j ≡ true))
        → P j × (test j ≡ true)
    go true t d rest =
        let same : k ≡ j = cc d in (subst P same h.0, subst (λ x. test x ≡ true) same t)
    go false t d rest = rest d

find_job-none :
    (test : UploadJob → Bool) (jobs : List UploadJob)
    → find_job test jobs ≡ none
    → All (λ j. test j ≡ false) jobs
unfolding find_job
find_job-none test [] e = tt
find_job-none test (k ∷ jobs) e = go (test k) refl e (λ d. find_job-none test jobs d)
  where
    go :
        (b : Bool)
        → test k ≡ b
        → (if b then some k else find_job test jobs) ≡ none
        → (find_job test jobs ≡ none → All (λ j. test j ≡ false) jobs)
        → (test k ≡ false) × All (λ j. test j ≡ false) jobs
    go true t d rest = absurd (cc d)
    go false t d rest = (t, rest d)

-- An item that keeps the file of its key, if there was one.
pub HasFile-set_item :
    (k key : ℕ) (item : Runtime) (items : List (ℕ × Runtime))
    → (HasFile key items → (file : ℕ) × (item.file ≡ some file))
    → HasFile k items
    → HasFile k (set_item key item items)
unfolding file_of
HasFile-set_item k key item items keep h =
    subst (λ x. (file : ℕ) × (file_of x ≡ some file)) (sym (get-set_item k key item items))
      (go (key == k) refl)
  where
    go :
        (b : Bool)
        → key == k ≡ b
        → (file : ℕ) × (file_of (if b then some item else get_item k items) ≡ some file)
    go true e = keep (subst (λ x. HasFile x items) (sym ((==_iff key k).0 e)) h)
    go false e = h

pub HasFile-set_own :
    (key file : ℕ) (item : Runtime) (items : List (ℕ × Runtime))
    → item.file ≡ some file
    → HasFile key (set_item key item items)
unfolding file_of
HasFile-set_own key file item items e =
    subst (λ x. (file : ℕ) × (file_of x ≡ some file)) (sym (get-set_item key key item items))
      (go (key == key) ((==_iff key key).1 refl))
  where
    go :
        (b : Bool)
        → b ≡ true
        → (file : ℕ) × (file_of (if b then some item else get_item key items) ≡ some file)
    go true t = (file, e)
    go false t = absurd (cc t)

pub HasFile-remove_item :
    (k key : ℕ) (items : List (ℕ × Runtime))
    → k ≢ key
    → HasFile k items
    → HasFile k (remove_item key items)
HasFile-remove_item k key items n h =
    subst (λ x. (file : ℕ) × (file_of x ≡ some file)) (sym (get-remove_item k key items n)) h

-- A queued job is begun, or the loop ends.
pub next_job-IsServed :
    (m : Uploads)
    → m.running ≡ true
    → m.flight ≡ none
    → All (IsFiled m.runtime) m.jobs
    → IsServed (next_job m)
unfolding next_job perform_next perform update_job set_phase is_busy is_queued
next_job-IsServed m r f a = go (find_job (λ j. is_queued j.phase) m.jobs) refl
  where
    begun :
        (job : UploadJob) (file : Option ℕ)
        → (n : ℕ) × (file ≡ some n)
        → IsServed (perform job file m)
    begun job none (n, e) = absurd (cc e)
    begun job (some file) h =
        let item : Runtime = record { file = some file; abort = some m.supply } in
        let items : List (ℕ × Runtime) = set_item job.key item m.runtime in
        let kept : (j : UploadJob) → IsFiled m.runtime j → IsFiled items j =
          λ j p q. HasFile-set_item j.key job.key item m.runtime (λ x. (file, refl)) (p q) in
        record {
          files =
              All-update (IsFiled m.runtime) (IsFiled items) job.key
                (λ j. record j { phase = hashing }) m.jobs kept (λ j e p q. absurd (cc q)) a;
          works = r;
          idle = λ k. absurd (cc (sym r ∙ k));
        }

    go :
        (job : Option UploadJob)
        → find_job (λ j. is_queued j.phase) m.jobs ≡ job
        → IsServed (perform_next job m)
    go none e = record {
      files = a;
      works = sym (ap is_busy f);
      idle = λ k. find_job-none (λ j. is_queued j.phase) m.jobs e;
    }
    go (some job) e =
        let found = find_job-All (IsFiled m.runtime) (λ j. is_queued j.phase) m.jobs job e a in
        begun job (file_of (get_item job.key m.runtime)) (found.0 found.1)
