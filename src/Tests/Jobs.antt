-- ===== src/Tests/Jobs.antt =====
-- The theorems about the jobs and the worker at concrete inputs.
use vpn_controll_app.Base.{
  nat_Eq, string_Eq, ◌≤◌, ◌≡◌, refl, arith, none, some, true, List, [], ◌∷◌,
}
use vpn_controll_app.Base.Sort.{sorted, insert_up}
use vpn_controll_app.Dict.{lookup, values}
use vpn_controll_app.Domain.Status.{SetupJobStatus, AuthMethod}
use vpn_controll_app.Domain.Entities.{SetupJob}
use vpn_controll_app.Storage.State.{Store}
use vpn_controll_app.Storage.Jobs.{next_queued_setup_job}
use vpn_controll_app.SetupJobs.Machine.{IsValid, Effect, Injective}
use vpn_controll_app.SetupJobs.Calls.{Call, Advance, run, run_call, run_call-Effect}
use vpn_controll_app.SetupJobs.Forever.{run-IsValid, run-frozen}
use vpn_controll_app.SetupJobs.Queue.{next_queued_oldest}
use vpn_controll_app.Worker.Runner.{AgentCredentials}
use vpn_controll_app.Worker.Deploy.{
  Phase, Machine, Exit, KeyFile, run_script, script_environ, ssh_password_env, hmac_secret_env,
}
use vpn_controll_app.Worker.Secrets.{
  command_of, run_script-no_secret_in_command, run_script-no_key_left, script_environ-least,
}
use vpn_controll_app.Tests.Sample.{outside, settings, admin, store}
use vpn_controll_app.SetupJobs
use vpn_controll_app.Worker.{Schedule, run_round}
use vpn_controll_app.Worker.Runner.{stub_runner, stub_check_ssh}
use vpn_controll_app.Worker.Finish.{IsQuietRunner}
use vpn_controll_app.Worker.Round.{HasFinished, run_round-IsFinished}
use vpn_controll_app.Worker.Cancel.{cancel-IsHarmless}
use vpn_controll_app.Servers

abbrev pub job : SetupJob
job = record {
  id = 30;
  created_by_user_id = 2;
  server_name = "oslo";
  host = "oslo.example.org";
  ssh_port = 22;
  ssh_username = "root";
  auth_method = AuthMethod.ssh_key;
  created_at = 50;
  updated_at = 50;
  status = SetupJobStatus.queued;
  secret_encrypted = none;
  region_note = none;
  install_awg = true;
  available_for_new_devices = true;
  verify_before_install = true;
  current_step = "";
  error_message = none;
  result_payload = none;
  server_node_id = none;
  started_at = none;
  finished_at = none;
}

abbrev pub done : SetupJob
done = record job { id = 31; status = SetupJobStatus.success }

abbrev pub busy : Store
busy = record store {
  setup_jobs = (30, job) ∷ (31, done) ∷ [];
  ephemeral_ssh_secrets = (30, "pw") ∷ [];
}

busy-IsValid : IsValid outside busy
unfolding lookup
busy-IsValid = record {
  distinct = (refl, (refl, tt));
  keyed = λ k j h. ground arith;
  unused = λ n h. ground arith;
  live = λ k x h. (job, ground arith, refl);
}

injective : Injective outside
injective m n h = omega (arith, h)

abbrev calls : List Call
calls =
    Call.claim_next
    ∷ Call.set_step 30 Advance.install_agent "go"
    ∷ Call.finish_failed 31 "late"
    ∷ Call.cancel admin 30
    ∷ []

run-IsValid_example : IsValid outside (run outside calls busy)
run-IsValid_example = run-IsValid outside injective calls busy busy-IsValid

frozen_example : lookup 31 (run outside calls busy).setup_jobs ≡ some done
unfolding lookup
frozen_example = run-frozen outside injective calls busy 31 done busy-IsValid refl refl

run_call-Effect_example : Effect outside busy (run_call outside Call.claim_next busy)
run_call-Effect_example = run_call-Effect outside Call.claim_next busy busy-IsValid

oldest_example :
    (job.status ≡ SetupJobStatus.queued)
    × (lookup job.id busy.setup_jobs ≡ some job)
    × (job.created_at ≤ job.created_at)
unfolding next_queued_setup_job values sorted insert_up lookup
oldest_example = next_queued_oldest outside busy busy-IsValid job job 30 refl refl refl

calm : IsQuietRunner stub_runner
unfolding stub_check_ssh
calm = record {
  check_ssh = λ j c x s. ground arith;
  install_agent = λ j c x s. refl;
  install_vpn = λ j c x s. refl;
}

-- The job is cancelled while the connection is checked.
abbrev interrupted : Schedule outside settings stub_runner (λ t h. h)
interrupted = record {
  preflight = (λ s. (SetupJobs.cancel outside admin 30 s).1) ∷ [];
  install = [];
  vpn = [];
  health = [];
}

run_round-IsFinished_example :
    HasFinished 30 (run_round outside settings stub_runner (λ t h. h) interrupted busy)
unfolding next_queued_setup_job values sorted insert_up
run_round-IsFinished_example =
    run_round-IsFinished outside settings stub_runner (λ t h. h) calm interrupted busy job
      (record {
        preflight = (cancel-IsHarmless outside admin 30 30, tt);
        install = tt;
        vpn = tt;
        health = tt;
      })
      refl

abbrev machine : Machine
machine = record {
  environ = (ssh_password_env, "inherited") ∷ ("PATH", "/bin") ∷ [];
  script_path = "/srv/deploy-agent.sh";
  script_is_file = true;
  temporary_path = "/tmp/vpn-agent-1.key";
  key_file = KeyFile.whole;
  removable = true;
  decimal = λ n. "22";
  execute = λ command env. Exit.exited 0;
}

abbrev credentials : AgentCredentials
credentials = record {
  key_id = "key-id";
  secret = "agent";
  base_url = "http://oslo.example.org:9080";
}

command_example :
    command_of (run_script machine settings job credentials "a" Phase.install []).2
    ≡ command_of
        (run_script machine settings job
          (record credentials { secret = "other" })
          "b"
          Phase.install
          []).2
command_example =
    run_script-no_secret_in_command machine settings job credentials "other" "a" "b" Phase.install
      []

-- The worker is stopped while the script runs.
abbrev stopped_machine : Machine
stopped_machine = record machine { execute = λ command env. Exit.cancelled }

no_key_example :
    lookup "/tmp/vpn-agent-1.key"
      (run_script stopped_machine settings job credentials "a" Phase.install []).1
    ≡ none
unfolding lookup
no_key_example =
    run_script-no_key_left stopped_machine settings job credentials "a" "/tmp/vpn-agent-1.key"
      Phase.install [] refl refl

environ_example :
    (lookup ssh_password_env (script_environ machine settings job credentials "a" Phase.inspect)
      ≡ none)
    × (lookup hmac_secret_env (script_environ machine settings job credentials "a" Phase.inspect)
        ≡ none)
environ_example =
    script_environ-least machine settings job credentials "a" Phase.inspect refl (ground arith)
