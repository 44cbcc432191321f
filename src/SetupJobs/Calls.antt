-- ===== src/SetupJobs/Calls.antt =====
-- Sequences of calls of the setup-job service: those of the administrator's handlers and those
-- of the worker, in any order.
use vpn_controll_app.Base.{ℕ, Bool, false, String, List, [], ◌∷◌, ◌≡◌, refl}
use vpn_controll_app.Domain.Status.{SetupJobStatus, is_terminal}
use vpn_controll_app.Domain.Entities.{User}
use vpn_controll_app.Outside.{Outside}
use vpn_controll_app.Storage.State.{Store}
use vpn_controll_app.SetupJobs
use vpn_controll_app.SetupJobs.{NewJob}
use vpn_controll_app.SetupJobs.Machine.{
  Moves, to_agent, to_vpn, to_verify, skip_vpn, Effect, IsValid,
}
use vpn_controll_app.SetupJobs.Effects.{
  create-Effect, start-Effect, cancel-Effect, claim_next-Effect, set_step-Effect,
  finish_success-Effect, finish_failed-Effect,
}

-- The calls of `set_step` in the worker: from which status to which.
pub data Advance : Type 0 where
  install_agent install_vpn verify verify_without_vpn : Advance

abbrev pub source : Advance → SetupJobStatus
source install_agent = SetupJobStatus.checking_ssh
source install_vpn = SetupJobStatus.installing_agent
source verify = SetupJobStatus.installing_vpn
source verify_without_vpn = SetupJobStatus.installing_agent

abbrev pub target : Advance → SetupJobStatus
target install_agent = SetupJobStatus.installing_agent
target install_vpn = SetupJobStatus.installing_vpn
target verify = SetupJobStatus.verifying
target verify_without_vpn = SetupJobStatus.verifying

pub data Call : Type 0 where
  create : Bool → User → NewJob → Call
  start : Bool → User → ℕ → Call
  cancel : User → ℕ → Call
  claim_next : Call
  set_step : ℕ → Advance → String → Call
  finish_success : ℕ → ℕ → Call
  finish_failed : ℕ → String → Call

advance-Moves : (a : Advance) → Moves (source a) (target a)
advance-Moves install_agent = to_agent
advance-Moves install_vpn = to_vpn
advance-Moves verify = to_verify
advance-Moves verify_without_vpn = skip_vpn

advance_going : (a : Advance) → is_terminal (target a) ≡ false
advance_going install_agent = refl
advance_going install_vpn = refl
advance_going verify = refl
advance_going verify_without_vpn = refl

module _ (o : Outside) where
  -- The state that a call leaves, whether it returns or raises.
  unfoldable pub run_call : Call → Store → Store
  run_call (Call.create enabled actor new) s = (SetupJobs.create o enabled actor new s).1
  run_call (Call.start enabled actor job_id) s = (SetupJobs.start o enabled actor job_id s).1
  run_call (Call.cancel actor job_id) s = (SetupJobs.cancel o actor job_id s).1
  run_call Call.claim_next s = (SetupJobs.claim_next o s).1
  run_call (Call.set_step job_id a message) s =
      (SetupJobs.set_step o job_id (source a ∷ []) (target a) message s).1
  run_call (Call.finish_success job_id node_id) s = (SetupJobs.finish_success o job_id node_id s).1
  run_call (Call.finish_failed job_id message) s = (SetupJobs.finish_failed o job_id message s).1

  unfoldable pub run : List Call → Store → Store
  unfolding run_call
  run [] s = s
  run (c ∷ cs) s = run cs (run_call c s)

  -- Each call of the job service, whether it returns or raises, does to a well-formed table only
  -- what the state machine allows: nothing, a secret forgotten, one job moved along an allowed
  -- edge with its secret dropped where it ends, or one new queued job with its secret.
  pub run_call-Effect : (c : Call) (s : Store) → IsValid o s → Effect o s (run_call c s)
  unfolding run_call
  run_call-Effect (Call.create enabled actor new) s v = create-Effect o enabled actor new s
  run_call-Effect (Call.start enabled actor job_id) s v = start-Effect o enabled actor job_id s
  run_call-Effect (Call.cancel actor job_id) s v = cancel-Effect o actor job_id s
  run_call-Effect Call.claim_next s v = claim_next-Effect o s v
  run_call-Effect (Call.set_step job_id a message) s v =
      set_step-Effect o job_id (source a) (target a) message s (advance-Moves a) (advance_going a)
  run_call-Effect (Call.finish_success job_id node_id) s v =
      finish_success-Effect o job_id node_id s
  run_call-Effect (Call.finish_failed job_id message) s v = finish_failed-Effect o job_id message s
