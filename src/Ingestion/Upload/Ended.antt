-- ===== src/Ingestion/Upload/Ended.antt =====
-- No upload leaves its job unfinished, as long as a failure can be recorded.
use fifa_world_cup_ai_agent.Prelude.{
  ℕ, suc, ◌≡◌, refl, ◌<>◌, sym, ap, ◌∙◌, none, some, String, Bool, true, false, ◌||◌, Bool-cases,
  inl, inr, arith, List, [], ◌∷◌, Result, ok, err, Eq,
}
use fifa_world_cup_ai_agent.Ingestion.Job.{
  Job, Status, status_eq, queued, running, succeeded, failed, TransitionError, mark_failed,
  mark_succeeded, mark_running,
}
use fifa_world_cup_ai_agent.Ingestion.Csv.{RawRow}
use fifa_world_cup_ai_agent.Ingestion.Upload.Files.{ResolvedFile}
use fifa_world_cup_ai_agent.Ingestion.Upload.Order.{resolve_and_order_files-IsOrdered}
use fifa_world_cup_ai_agent.Ingestion.Upload.{
  Raised, raised, Update, saved, refused, saved_but, updated, reraised, message_of, with_job,
  Setting, Db, Run, continue, transition, persist, close, close_failed, close_succeeded, try_rows,
  ingest_upload, after_file, ingest_files, ingest_batch, fail_job, settled, run_task,
  synthetic_upload_task, bulk_synthetic_upload_task, required, find_spec, checkpoint, add_count,
}

abbrev pub is_ended : Status → Bool
is_ended succeeded = true
is_ended failed = true
is_ended _ = false

module _ {V Time : Type 0} ⦃e : Eq V⦄ (setting : Setting V Time) where
  open setting use {now, specs, parse_csv_rows, update, get_raises, get_again_raises}

  -- If the run returns, the job's row has ended.
  abbrev EndsWell : Result Raised (Job Time) × Db setting → Type 0
  EndsWell (ok job, db) = is_ended db.job.status ≡ true
  EndsWell (err x, db) = Unit

  continue-EndsWell :
      {A : Type 0} (f : A → Run setting (Job Time)) (r : Result Raised A × Db setting)
      → ((a : A) (db : Db setting) → EndsWell (f a db))
      → EndsWell (continue setting f r)
  continue-EndsWell f (ok a, db) h = h a db
  continue-EndsWell f (err x, db) h = tt

  persisted-EndsWell :
      (r : Result TransitionError (Job Time)) (db : Db setting)
      → ((job : Job Time) → r ≡ ok job → is_ended job.status ≡ true)
      → EndsWell (continue setting (λ job. persist setting job) (transition setting r, db))
  persisted-EndsWell (ok job) db h = go (update job)
    where
      go : (u : Update) → EndsWell (updated setting u job db)
      go saved = h job refl
      go (refused x) = tt
      go (saved_but x) = tt
  persisted-EndsWell (err x) db h = tt

  mark_failed-ended :
      (text : String) (t : Time) (job next : Job Time)
      → mark_failed text t job ≡ ok next
      → next.status ≡ failed
  unfolding mark_failed
  mark_failed-ended text t job next h =
      elim (Bool-cases (status_eq job.status queued || status_eq job.status running)) [
        | inl g ↦ ground (arith, g, h)
        | inr g ↦ ground (arith, g, h)
      ]

  mark_succeeded-ended :
      (counts : List (String × ℕ)) (t : Time) (job next : Job Time)
      → mark_succeeded counts t job ≡ ok next
      → next.status ≡ succeeded
  unfolding mark_succeeded
  mark_succeeded-ended counts t job next h = elim (Bool-cases (status_eq job.status running)) [
    | inl g ↦ ground (arith, g, h)
    | inr g ↦ ground (arith, g, h)
  ]

  close_failed-EndsWell :
      (text : String) (n : ℕ) (job : Job Time) (db : Db setting)
      → EndsWell (close_failed setting text n job db)
  unfolding close_failed
  close_failed-EndsWell text n job db =
      persisted-EndsWell (mark_failed text (now n) job) db
        (λ next h. ap is_ended (mark_failed-ended text (now n) job next h))

  close_succeeded-EndsWell :
      (counts : List (String × ℕ)) (n : ℕ) (job : Job Time) (db : Db setting)
      → EndsWell (close_succeeded setting counts n job db)
  unfolding close_succeeded
  close_succeeded-EndsWell counts n job db =
      persisted-EndsWell (mark_succeeded counts (now n) job) db
        (λ next h. ap is_ended (mark_succeeded-ended counts (now n) job next h))

  close-EndsWell :
      (table : String) (job : Job Time) (attempt : Result String ℕ) (db : Db setting)
      → EndsWell (close setting table job attempt db)
  close-EndsWell table job (ok n) db = close_succeeded-EndsWell ((table, n) ∷ []) 1 job db
  close-EndsWell table job (err text) db = close_failed-EndsWell text 1 job db

  ingest_upload-EndsWell :
      (table : String) (rows : List RawRow) (job : Job Time) (db : Db setting)
      → EndsWell (ingest_upload setting table rows job db)
  unfolding ingest_upload
  ingest_upload-EndsWell table rows job db =
      continue-EndsWell _
        (
          required setting
              (raised "UnknownTableError" ("unknown synthetic ingestion table '" <> table <> "'"))
              (find_spec setting table specs),
          db,
        )
        (λ spec d1.
          continue-EndsWell _ (transition setting (mark_running (now 0) job), d1)
            (λ running_job d2. continue-EndsWell _ (persist setting running_job d2) (λ persisted d3.
              continue-EndsWell _ (try_rows setting spec rows d3)
                (λ attempt d4. close-EndsWell table persisted attempt d4))))

  after_file-EndsWell :
      (go : List (String × ℕ) → Job Time → Run setting (Job Time)) (n : ℕ)
      (counts : List (String × ℕ)) (job : Job Time) (table : String) (attempt : Result String ℕ)
      (db : Db setting)
      → ((c : List (String × ℕ)) (j : Job Time) (d : Db setting) → EndsWell (go c j d))
      → EndsWell (after_file setting go n counts job table attempt db)
  after_file-EndsWell go n counts job table (err text) db h = close_failed-EndsWell text n job db
  after_file-EndsWell go n counts job table (ok count) db h =
      continue-EndsWell _ (checkpoint setting table n job db)
        (λ next d. h (add_count setting table count counts) next d)

  ingest_files-EndsWell :
      (n : ℕ) (counts : List (String × ℕ)) (job : Job Time) (files : List ResolvedFile)
      (db : Db setting)
      → EndsWell (ingest_files setting n counts job files db)
  unfolding ingest_files
  ingest_files-EndsWell n counts job [] db = close_succeeded-EndsWell counts n job db
  ingest_files-EndsWell n counts job (file ∷ files) db =
      let table = file.table_name in
      continue-EndsWell _
        (required setting (raised "KeyError" table) (find_spec setting table specs), db)
        (λ spec d1.
          continue-EndsWell _ (parse_csv_rows file.csv_bytes, d1)
            (λ rows d2. continue-EndsWell _ (try_rows setting spec rows d2) (λ attempt d3.
              after_file-EndsWell (λ c j. ingest_files setting (suc n) c j files) n counts job table
                attempt d3 (λ c j d. ingest_files-EndsWell (suc n) c j files d))))

  ingest_batch-EndsWell :
      (files : List ResolvedFile) (job : Job Time) (db : Db setting)
      → EndsWell (ingest_batch setting files job db)
  unfolding ingest_batch
  ingest_batch-EndsWell files job db =
      continue-EndsWell _ (transition setting (mark_running (now 0) job), db)
        (λ running_job d1.
          continue-EndsWell _ (persist setting running_job d1)
            (λ persisted d2. ingest_files-EndsWell 1 [] persisted files d2))

  -- The write is in the table, whether it raised after that or not.
  abbrev pub IsWritten : Update → Type 0
  IsWritten saved = Unit
  IsWritten (refused x) = ⊥
  IsWritten (saved_but x) = Unit

  updated-job :
      (u : Update) (job : Job Time) (db : Db setting)
      → IsWritten u
      → (updated setting u job db).1.job ≡ job
  updated-job saved job db h = refl
  updated-job (refused x) job db h = absurd h
  updated-job (saved_but x) job db h = refl

  module _ (can_fail : (job : Job Time) → job.status ≡ failed → IsWritten (update job))
      (readable : get_again_raises ≡ none) where
    fail_job-ended :
        (x : Raised) (db : Db setting) → is_ended (fail_job setting x db).1.job.status ≡ true
    unfolding fail_job mark_failed
    fail_job-ended x db =
        elim (Bool-cases (status_eq db.job.status queued || status_eq db.job.status running)) [
          | inl g ↦
              rw (readable, g)
                (let f : Job Time = record db.job {
                  status = failed;
                  error_message = some (message_of setting x);
                  finished_at = some (now 0);
                } in
                  ap (λ (j : Job Time). is_ended j.status)
                    (updated-job (update f) f db (can_fail f refl)))
          | inr g ↦ rw (readable, g) (others db.job.status g)
        ]
      where
        others :
            (s : Status) → (status_eq s queued || status_eq s running) ≡ false → is_ended s ≡ true
        others succeeded h = refl
        others failed h = refl
        others queued h = sym h
        others running h = sym h

    reraised-job :
        (x : Raised) (r : Result Raised (Job Time) × Db setting)
        → (reraised setting x r).1.job ≡ r.1.job
    reraised-job x (ok job, db) = refl
    reraised-job x (err y, db) = refl

    settled-ended :
        (r : Result Raised (Job Time) × Db setting)
        → EndsWell r
        → is_ended (settled setting r).1.job.status ≡ true
    settled-ended (ok job, db) h = h
    settled-ended (err x, db) h =
        ap (λ (j : Job Time). is_ended j.status) (reraised-job x (fail_job setting x db))
        ∙ fail_job-ended x db

    -- If the job's row can be read, by the task and again by its handler of failures, and the write of
    -- a failed job is not refused: whatever an upload meets, an unknown table, a bad row, an exception
    -- of an upsert, of the decoding or of any other write of the job's row, and whatever the job's
    -- status was, its task leaves the job's row succeeded or failed.
    pub upload_tasks-is_ended :
        get_raises ≡ none
        → (db : Db setting)
        → ((table : String) (csv_bytes : List ℕ)
            → is_ended (synthetic_upload_task setting table csv_bytes db).1.job.status ≡ true)
          × ((files : List (String × List ℕ))
              → is_ended (bulk_synthetic_upload_task setting files db).1.job.status ≡ true)
    unfolding synthetic_upload_task bulk_synthetic_upload_task run_task with_job
    upload_tasks-is_ended found db = (
      λ table csv_bytes. rw found (
          settled-ended _ (
            continue-EndsWell _ (parse_csv_rows csv_bytes, db)
              (λ rows d. ingest_upload-EndsWell table rows db.job d))),
      λ files.
          let (resolution, c, o, f, r) = resolve_and_order_files-IsOrdered files in
          rw (found, c) (settled-ended _ (ingest_batch-EndsWell resolution.accepted db.job db)),
    )
