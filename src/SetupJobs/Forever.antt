-- ===== src/SetupJobs/Forever.antt =====
-- What holds of the jobs and the secrets after any sequence of calls.
use vpn_controll_app.Base.{
  ℕ, ◌≤◌, ◌<◌, true, false, String, none, some, List, [], ◌∷◌, ◌≡◌, refl, arith, inl, inr,
  Bool-cases, nat_Eq, ◌==◌, if◌then◌else◌,
}
use vpn_controll_app.Dict.{Dict, lookup, insert, erase}
use vpn_controll_app.Dict.Laws.{lookup-insert, lookup-erase, AllValues-insert}
use vpn_controll_app.Dict.Distinct.{insert-Distinct}
use vpn_controll_app.Domain.Status.{SetupJobStatus, is_terminal}
use vpn_controll_app.Domain.Entities.{SetupJob}
use vpn_controll_app.Outside.{Outside}
use vpn_controll_app.Storage.State.{Store}
use vpn_controll_app.SetupJobs.Machine.{
  Moves, claim, to_agent, to_vpn, to_verify, skip_vpn, succeed, fail, abort, Effect, quiet, forgets,
  moves, creates, Injective, JobsValid, IsValid,
}
use vpn_controll_app.SetupJobs.Calls.{Call, run_call, run, run_call-Effect}

-- No move leaves a finished job.
Moves-going : {a b : SetupJobStatus} → Moves a b → is_terminal a ≡ false
Moves-going claim = refl
Moves-going to_agent = refl
Moves-going to_vpn = refl
Moves-going to_verify = refl
Moves-going skip_vpn = refl
Moves-going succeed = refl
Moves-going (fail h) = h
Moves-going (abort h) = h

module _ (o : Outside) (d : Dict ℕ SetupJob) (m : Dict ℕ String) (n : ℕ) where
  valid_later : (n' : ℕ) → n ≤ n' → JobsValid o d m n → JobsValid o d m n'
  valid_later n' h v = record {
    distinct = v.distinct;
    keyed = v.keyed;
    unused = λ i hi. v.unused i (omega arith);
    live = v.live;
  }

  valid_erase : (k : ℕ) → JobsValid o d m n → JobsValid o d (erase k m) n
  valid_erase k v = record {
    distinct = v.distinct;
    keyed = v.keyed;
    unused = v.unused;
    live = λ j x q. v.live j x (ground (arith, lookup-erase k j m));
  }

  module _ (k : ℕ) (job job' : SetupJob) (found : lookup k d ≡ some job)
      (same : job'.id ≡ job.id) where
    move_unused :
        JobsValid o d m n → (i : ℕ) → n ≤ i → lookup (o.uuid4 i) (insert job.id job' d) ≡ none
    move_unused v i hi =
        ground (arith, lookup-insert job.id (o.uuid4 i) job' d, v.unused i hi, v.keyed k job found)

    move_live :
        JobsValid o d m n
        → (j : ℕ) (x : String)
        → lookup j (if is_terminal job'.status then erase k m else m) ≡ some x
        → (w : SetupJob) × (lookup j (insert job.id job' d) ≡ some w)
          × (is_terminal w.status ≡ false)
    move_live v j x q = elim (Bool-cases (k == j)) [
      | inl here ↦ (
        job',
        ground (arith, lookup-insert job.id j job' d, v.keyed k job found),
        ground (arith, lookup-erase k j m),
      )
      | inr there ↦
          let kept : lookup j m ≡ some x = ground (arith, lookup-erase k j m) in
          let (w, stored, going) = v.live j x kept in
          (w, ground (arith, lookup-insert job.id j job' d, v.keyed k job found), going)
    ]

    valid_move :
        JobsValid o d m n
        → JobsValid o (insert job.id job' d) (if is_terminal job'.status then erase k m else m) n
    valid_move v = record {
      distinct = insert-Distinct job.id job' d v.distinct;
      keyed = AllValues-insert (λ i j. j.id ≡ i) job.id job' d v.keyed same;
      unused = move_unused v;
      live = move_live v;
    }

  module _ (i n' : ℕ) (job : SetupJob) (x : String) (lo : n ≤ i) (hi : i < n')
      (named : job.id ≡ o.uuid4 i) (queued : job.status ≡ SetupJobStatus.queued) where
    create_live :
        JobsValid o d m n
        → (j : ℕ) (y : String) → lookup j (insert (o.uuid4 i) x m) ≡ some y
        → (w : SetupJob) × (lookup j (insert (o.uuid4 i) job d) ≡ some w)
          × (is_terminal w.status ≡ false)
    create_live v j y q = elim (Bool-cases (o.uuid4 i == j)) [
      | inl here ↦ (job, ground (arith, lookup-insert (o.uuid4 i) j job d), rw queued)
      | inr there ↦
          let kept : lookup j m ≡ some y = ground (arith, lookup-insert (o.uuid4 i) j x m) in
          let (w, stored, going) = v.live j y kept in
          (w, ground (arith, lookup-insert (o.uuid4 i) j job d), going)
    ]

    create_unused :
        Injective o
        → JobsValid o d m n
        → (j : ℕ) → n' ≤ j
        → lookup (o.uuid4 j) (insert (o.uuid4 i) job d) ≡ none
    create_unused inj v j hj =
        ground
          (arith, lookup-insert (o.uuid4 i) (o.uuid4 j) job d, v.unused j (omega arith), inj i j)

    valid_create :
        Injective o
        → JobsValid o d m n
        → JobsValid o (insert (o.uuid4 i) job d) (insert (o.uuid4 i) x m) n'
    valid_create inj v = record {
      distinct = insert-Distinct (o.uuid4 i) job d v.distinct;
      keyed = AllValues-insert (λ k j. j.id ≡ k) (o.uuid4 i) job d v.keyed named;
      unused = create_unused inj v;
      live = create_live v;
    }

module _ (o : Outside) (inj : Injective o) where
  Effect-IsValid : {s t : Store} → Effect o s t → IsValid o s → IsValid o t
  Effect-IsValid {s} {t} (quiet jobs secrets later) v =
      rw (jobs, secrets) (valid_later o _ _ s.asked t.asked later v)
  Effect-IsValid {s} {t} (forgets k jobs secrets later) v =
      rw (jobs, secrets) (valid_later o _ _ s.asked t.asked later (valid_erase o _ _ _ k v))
  Effect-IsValid {s} {t} (moves k job job' found same move jobs secrets later) v =
      rw (jobs, secrets)
        (valid_later o _ _ s.asked t.asked later (valid_move o _ _ _ k job job' found same v))
  Effect-IsValid {s} {t} (creates i job x lo hi named queued jobs secrets) v =
      rw (jobs, secrets) (valid_create o _ _ s.asked i t.asked job x lo hi named queued inj v)

  -- Where uuid4 never repeats, any sequence of calls of the job service keeps the table well
  -- formed: each job under its own id, no id used that is still to be given, and an SSH secret
  -- held only for a job that is not finished.
  pub run-IsValid : (calls : List Call) (s : Store) → IsValid o s → IsValid o (run o calls s)
  unfolding run
  run-IsValid [] s v = v
  run-IsValid (c ∷ cs) s v =
      run-IsValid cs (run_call o c s) (Effect-IsValid (run_call-Effect o c s v) v)

  Effect-frozen :
      {s t : Store} (k : ℕ) (job : SetupJob)
      → Effect o s t
      → IsValid o s
      → lookup k s.setup_jobs ≡ some job
      → is_terminal job.status ≡ true
      → lookup k t.setup_jobs ≡ some job
  Effect-frozen k job (quiet jobs secrets later) v found done = rw jobs found
  Effect-frozen k job (forgets _ jobs secrets later) v found done = rw jobs found
  Effect-frozen {s} k job (moves k' old new there same move jobs secrets later) v found done =
      rw jobs (
        ground
          (arith, lookup-insert old.id k new s.setup_jobs, v.keyed k' old there, Moves-going move))
  Effect-frozen {s} k job (creates i new x lo hi named queued jobs secrets) v found done =
      rw jobs (ground (arith, lookup-insert (o.uuid4 i) k new s.setup_jobs, v.unused i lo))

  -- A finished job is never written again: from a well-formed table, where uuid4 never repeats,
  -- its record stays as it was after any sequence of calls of the job service.
  pub run-frozen :
      (calls : List Call) (s : Store) (k : ℕ) (job : SetupJob)
      → IsValid o s
      → lookup k s.setup_jobs ≡ some job
      → is_terminal job.status ≡ true
      → lookup k (run o calls s).setup_jobs ≡ some job
  unfolding run
  run-frozen [] s k job v found done = found
  run-frozen (c ∷ cs) s k job v found done =
      let e = run_call-Effect o c s v in
      run-frozen cs (run_call o c s) k job (Effect-IsValid e v) (Effect-frozen k job e v found done)
        done
