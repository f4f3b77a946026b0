-- ===== src/Lock/Safety.antt =====
-- What a lock leaves on the disk.
use timelocked.Common.{ℕ, Option, none, some, ◌≡◌, refl, ◌⊎◌, inl, inr, Bool, true, false, arith}
use timelocked.Common.Bytes.{Bytes, ascii}
use mathlib.Core.Path.{subst}
use timelocked.Base.{
  Result, ok, err, Polls, ensure_not_cancelled, bind-inv, reject_if, output_exists, ◌>>◌,
}
use timelocked.Primitives.{Primitives}
use timelocked.Difficulty.Resolve.{resolve_lock_difficulty}
use timelocked.Paths.FilePath.{FilePath, parent, path_of}
use timelocked.Disk.{Disk, Answers, persisted, if_ok}
use timelocked.Disk.Directories.{dir_of, OnlyDirs, OnlyDirs-same, create_dir_all-OnlyDirs}
use timelocked.Unlock.Request.{or_else}
use timelocked.Lock.Staging.{
  LockRequest, StagedLockInput, resolve_input_source, resolve_lock_output_path,
  assert_output_not_exists, ensure_parent_dir_exists, copy_input_to_staging,
  resolve_and_stage_input, create_parent, InputSource, resolve_input_and_output, stage_input,
  stage_at,
}
use timelocked.Lock.Payload.{Draws, write_payload_artifacts}
use timelocked.Lock.Execute.{
  LockResponse, LockPolls, Prepared, resolve_current_machine_iterations_per_second, persist_with,
  persist_timelocked_container, verify_output_if_requested, prepare_payload, prepare_staged,
  prepare_lock, lock_response, finish_lock, lock_prepared, execute_with_cancel,
}

module _ (disk : Disk) where
  abbrev pub OnItsWay : FilePath → Disk → Type 0
  OnItsWay path disk' = (disk.exists path ≡ false) × OnlyDirs (dir_of path) disk disk'

  -- The disk is as it was, or has directories on the way to a path where nothing was.
  abbrev pub IsKept : Disk → Type 0
  IsKept disk' = (disk' ≡ disk) ⊎ ((path : FilePath) × OnItsWay path disk')

  -- One file was added, at a path where nothing was, once such directories were made.
  abbrev pub IsAdded : FilePath → Disk → Type 0
  IsAdded path disk' =
      (between : Disk) × OnItsWay path between
      × ((bytes : Bytes) × (disk' ≡ persisted path bytes between))

  -- An error keeps the disk, and a result has directories on the way to its path.
  abbrev IsReady {ℓ} : {A : Type ℓ} → (A → FilePath) → Result A × Disk → Type 0
  IsReady path (err e, disk') = IsKept disk'
  IsReady path (ok done, disk') = OnItsWay (path done) disk'

  settled {ℓ} :
      {A : Type ℓ} (to : A → FilePath) (path : FilePath) (r : Result A) (disk' : Disk)
      → OnItsWay path disk'
      → ((done : A) → r ≡ ok done → path ≡ to done)
      → IsReady to (r, disk')
  settled to path (err e) disk' dirs same = inr (path, dirs)
  settled to path (ok done) disk' dirs same = subst (λ q. OnItsWay q disk') (same done refl) dirs

  create_parent-OnlyDirs :
      (answers : Answers) (dir : Option FilePath) (otherwise : FilePath)
      → OnlyDirs (or_else dir otherwise) disk (create_parent answers dir disk).1
  create_parent-OnlyDirs answers none otherwise = OnlyDirs-same otherwise disk
  create_parent-OnlyDirs answers (some dir) otherwise = create_dir_all-OnlyDirs answers dir disk

  module _ (p : Primitives) (standard_input : Result Bytes) (answers : Answers)
      (before behind : Polls) where
    stage_input-path :
        (created : Result (Unit {0})) (disk' : Disk) (source : InputSource) (path : FilePath)
        (staged : StagedLockInput)
        → (created >> stage_input p standard_input answers before behind disk' source path)
          ≡ ok staged
        → path ≡ staged.output_path
    stage_input-path created disk' source path staged h = bind-inv created _ h λ u0 e0 h0.
        bind-inv (ensure_not_cancelled before) _ h0 λ u1 e1 h1.
          bind-inv (answers.new_temp_in _) _ h1 λ u2 e2 h2.
            bind-inv (copy_input_to_staging p disk' standard_input answers source) _ h2
              λ copied e3 h3. bind-inv (ensure_not_cancelled behind) _ h3 λ u4 e4 h4. cc

    output-free :
        (input : Bytes) (explicit : Option FilePath) (source : InputSource) (path : FilePath)
        → resolve_input_and_output disk input explicit ≡ ok (source, path)
        → disk.exists path ≡ false
    unfolding assert_output_not_exists
    output-free input explicit source path h =
        bind-inv (resolve_lock_output_path (resolve_input_source disk.exists input) explicit) _ h
          λ resolved e0 h0.
            bind-inv (reject_if (disk.exists resolved) (output_exists resolved.text)) _ h0
              λ u1 e1 h1. let same : resolved ≡ path = cc in rw (← same) (ground arith)

    stage_at-IsReady :
        (input : Bytes) (explicit : Option FilePath) (r : Result (InputSource × FilePath))
        → resolve_input_and_output disk input explicit ≡ r
        → IsReady
            (λ staged. staged.output_path)
            (stage_at p standard_input answers before behind r disk)
    unfolding ensure_parent_dir_exists
    stage_at-IsReady input explicit (err e) h = inl refl
    stage_at-IsReady input explicit (ok (source, path)) h =
        let ready = create_parent answers (parent path) disk in
        settled (λ staged. staged.output_path) path
          (ready.0 >> stage_input p standard_input answers before behind ready.1 source path)
          ready.1
          (
            output-free input explicit source path h,
            create_parent-OnlyDirs answers (parent path) (path_of (ascii ".")),
          )
          (stage_input-path ready.0 ready.1 source path)

module _ (p : Primitives) (draws : Draws) (standard_input : Result Bytes) (calibrated : Result ℕ)
    (staging_answers artifact_answers : Answers) (polls : LockPolls) (request : LockRequest)
    (disk : Disk) where
  abbrev pub IsCleanLock : Result LockResponse × Disk → Type 0
  IsCleanLock (ok response, disk') =
      IsAdded disk response.output_path disk'
      × (verify_output_if_requested p polls.verification request.verify response.output_path disk'
          ≡ ok tt)
  IsCleanLock (err e, disk') =
      IsKept disk disk' ⊎ ((request.verify ≡ true) × ((path : FilePath) × IsAdded disk path disk'))

  abbrev to_output : Prepared p → FilePath
  to_output prepared = prepared.0.output_path

  prepare_payload-path :
      (staged_input : StagedLockInput) (prepared : Prepared p)
      → prepare_payload p draws standard_input calibrated staging_answers artifact_answers polls
          request staged_input
        ≡ ok prepared
      → staged_input.output_path ≡ to_output prepared
  prepare_payload-path staged_input prepared h =
      bind-inv (resolve_current_machine_iterations_per_second calibrated request) _ h λ rate e0 h0.
        bind-inv
          (resolve_lock_difficulty request.iterations request.target request.hardware_profile rate)
          _ h0
          λ difficulty e1 h1.
            bind-inv
              (write_payload_artifacts p draws artifact_answers polls.payload staged_input request
                _)
              _ h1 λ artifact e2 h2. cc

  prepare_staged-IsReady :
      (staged : Result StagedLockInput × Disk)
      → IsReady disk (λ staged_input. staged_input.output_path) staged
      → IsReady disk to_output (
          prepare_staged p draws standard_input calibrated staging_answers artifact_answers polls
            request staged)
  prepare_staged-IsReady (err e, disk') kept = kept
  prepare_staged-IsReady (ok staged_input, disk') dirs =
      settled disk to_output staged_input.output_path
        (prepare_payload p draws standard_input calibrated staging_answers artifact_answers polls
          request staged_input)
        disk' dirs (prepare_payload-path staged_input)

  prepare_lock-IsReady : IsReady disk to_output (
      prepare_lock p draws standard_input calibrated staging_answers artifact_answers polls request
        disk)
  unfolding resolve_and_stage_input
  prepare_lock-IsReady = go (ensure_not_cancelled polls.start)
    where
      go :
          (r : Result (Unit {0}))
          → IsReady disk to_output (
              if_ok r disk (
                prepare_staged p draws standard_input calibrated staging_answers artifact_answers
                  polls request
                  (resolve_and_stage_input p standard_input staging_answers polls.staging
                    polls.staged disk request.input request.output)))
      go (err e) = inl refl
      go (ok done) =
          prepare_staged-IsReady
            (resolve_and_stage_input p standard_input staging_answers polls.staging polls.staged
              disk request.input request.output)
            (stage_at-IsReady disk p standard_input staging_answers polls.staging polls.staged
              request.input request.output
              (resolve_input_and_output disk request.input request.output) refl)

  finish_lock-IsClean :
      (prepared : Prepared p) (between : Disk) (r : Result (Unit {0}))
      → OnItsWay disk (to_output prepared) between
      → IsCleanLock (
          finish_lock p draws standard_input calibrated staging_answers artifact_answers polls
            request prepared
            (persist_with r prepared.0.output_path prepared.2 between))
  unfolding verify_output_if_requested
  finish_lock-IsClean prepared between (err e) dirs = inl (inr (to_output prepared, dirs))
  finish_lock-IsClean (staged_input, difficulty, artifact) between (ok done) dirs =
      verified request.verify refl
        (verify_output_if_requested p polls.verification request.verify staged_input.output_path
          (persisted staged_input.output_path artifact between))
        refl
    where
      verified :
          (verify : Bool)
          → request.verify ≡ verify
          → (r : Result (Unit {0}))
          → verify_output_if_requested p polls.verification request.verify staged_input.output_path
              (persisted staged_input.output_path artifact between)
            ≡ r
          → IsCleanLock (
            (r
                >> ok (
                    lock_response p draws standard_input calibrated staging_answers artifact_answers
                      polls staged_input difficulty)),
            persisted staged_input.output_path artifact between,
          )
      verified verify asked (ok done) h = ((between, dirs, (artifact, refl)), h)
      verified true asked (err e) h =
          inr (asked, (staged_input.output_path, (between, dirs, (artifact, refl))))
      verified false asked (err e) h =
          let skipped : ok tt ≡ err e =
            subst
              (λ v.
                verify_output_if_requested p polls.verification v staged_input.output_path
                  (persisted staged_input.output_path artifact between)
                ≡ err e)
              asked h in
          absurd (cc)

  -- A lock that returns has added one file, at the path that it returns, where nothing was, and
  -- directories on the way to it; where verification was asked for, that file passed it. A lock that
  -- fails changes no file and adds at most directories on the way to a path where nothing was, or
  -- verification was asked for: then the added file may stay on the disk too, at such a path.
  pub lock-IsClean : IsCleanLock (
      execute_with_cancel p draws standard_input calibrated staging_answers artifact_answers polls
        request disk)
  unfolding execute_with_cancel persist_timelocked_container
  lock-IsClean =
      go
        (prepare_lock p draws standard_input calibrated staging_answers artifact_answers polls
          request disk)
        prepare_lock-IsReady
    where
      go :
          (prepared : Result (Prepared p) × Disk)
          → IsReady disk to_output prepared
          → IsCleanLock (
              lock_prepared p draws standard_input calibrated staging_answers artifact_answers polls
                request prepared)
      go (err e, disk') kept = inl kept
      go (ok prepared, disk') dirs =
          finish_lock-IsClean prepared disk' (artifact_answers.persist prepared.0.output_path) dirs
