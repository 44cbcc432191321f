-- ===== src/Worker/Deploy.antt =====
-- `DeployScriptSetupRunner` (backend/app/workers/setup_worker.py): the command and the
-- environment of the deployment script, and the temporary file of an SSH key. What the operating
-- system does is a parameter.
use vpn_controll_app.Base.{
  ℕ, Bool, true, false, String, Option, none, some, List, [], ◌∷◌, ◌++◌, ◌==◌, nat_Eq, string_Eq,
  is_empty, concat, if◌then◌else◌,
}
use vpn_controll_app.Dict.{Dict, insert, erase}
use vpn_controll_app.Domain.Status.{AuthMethod}
use vpn_controll_app.Domain.Entities.{SetupJob}
use vpn_controll_app.Errors.{Error, setup_step_error, value_error}
use vpn_controll_app.Settings.{Settings}
use vpn_controll_app.Storage.Action.{Result, ok, err}
use vpn_controll_app.Worker.Runner.{AgentCredentials}

-- The argument `phase`; `other` is any text that is not one of the three.
pub data Phase : Type 0 where
  preflight install inspect : Phase
  other : String → Phase

-- What became of the process: it exited with a code, ran out of time or was cancelled with the worker,
-- or the system refused to start it.
pub data Exit : Type 0 where
  exited : ℕ → Exit
  timed_out cancelled not_started : Exit

-- What became of the temporary file of the key: it was not made, was made but not written to the end
-- (`partial` has what was written), or is there.
pub data KeyFile : Type 0 where
  not_made whole : KeyFile
  partial : String → KeyFile

-- The machine that runs the script; `decimal` is `str` of a port, and `removable` says whether
-- `os.remove` may remove the key's file.
pub record Machine : Type 0 where
  pub environ : Dict String String
  pub script_path : String
  pub script_is_file : Bool
  pub temporary_path : String
  pub key_file : KeyFile
  pub removable : Bool
  pub decimal : ℕ → String
  pub execute : List String → Dict String String → Exit

-- How `_run_script` ends: it returns, raises an error of the program's, passes on an exception of the
-- machine's (of mkstemp, the writing, the start of the process or the removal), or a CancelledError.
pub data Ending : Type 0 where
  returned machine_error interrupted : Ending
  failed : Error → Ending

abbrev pub ssh_password_env : String
ssh_password_env = "VPN_AGENT_DEPLOY_SSH_PASSWORD"

abbrev pub hmac_secret_env : String
hmac_secret_env = "VPN_AGENT_DEPLOY_HMAC_SECRET"

-- `",".join(xs)`
abbrev pub join_commas : List String → String
join_commas [] = ""
join_commas (x ∷ []) = x
join_commas (x ∷ (y ∷ ys)) = concat x (concat "," (join_commas (y ∷ ys)))

-- `x or default`
abbrev pub or_default : String → String → String
or_default x d = if is_empty x then d else x

module _ (machine : Machine) (settings : Settings) where
  -- The arguments that say how to authenticate.
  unfoldable pub auth_arguments : SetupJob → Option String → Result (List String)
  auth_arguments job identity_file = elim job.auth_method [
    | AuthMethod.ssh_key ↦ elim identity_file [
      | none ↦ err (setup_step_error "Не удалось подготовить временный SSH-ключ")
      | some path ↦ ok ("--identity-file" ∷ path ∷ [])
    ]
    | AuthMethod.password ↦ ok (
        "--password-env"
        ∷ ssh_password_env
        ∷ (if job.ssh_username == "root" then [] else "--reuse-password-for-sudo" ∷ []))
  ]

  unfoldable pub phase_arguments : SetupJob → AgentCredentials → Phase → Result (List String)
  phase_arguments job credentials Phase.preflight = ok ("--preflight-only" ∷ [])
  phase_arguments job credentials Phase.inspect = ok ("--inspect-only" ∷ [])
  phase_arguments job credentials Phase.install = ok (
      "--install-service"
      ∷ "--service-name"
      ∷ "vpn-agent"
      ∷ "--listen"
      ∷ settings.setup_agent_listen
      ∷ "--endpoint-host"
      ∷ job.host
      ∷ "--hmac-key-id"
      ∷ credentials.key_id
      ∷ "--hmac-secret-env"
      ∷ hmac_secret_env
      ∷ "--allow-ip"
      ∷ or_default (join_commas settings.setup_agent_allow_ips) "ssh-source"
      ∷ "--skip-inspect"
      ∷ [])
  phase_arguments job credentials (Phase.other name) =
      err (value_error (concat "unknown deploy phase: " name))

  -- The three parts of a command, one after the other.
  abbrev append : List String → Result (List String) → Result (List String)
  append xs (ok ys) = ok (xs ++ ys)
  append xs (err e) = err e

  unfoldable pub build_command :
      SetupJob → AgentCredentials → Phase → Option String → Result (List String)
  unfolding auth_arguments phase_arguments
  build_command job credentials phase identity_file =
      let start =
        "/bin/bash"
        ∷ machine.script_path
        ∷ "--user"
        ∷ job.ssh_username
        ∷ "--host"
        ∷ job.host
        ∷ "--ssh-port"
        ∷ machine.decimal job.ssh_port
        ∷ [] in
      elim (auth_arguments job identity_file) [
        | err e ↦ err e
        | ok auth ↦ append (start ++ auth) (phase_arguments job credentials phase)
      ]

  -- `if phase == "install": env[…] = credentials.secret`
  unfoldable pub with_hmac : Phase → AgentCredentials → Dict String String → Dict String String
  with_hmac Phase.install credentials env = insert hmac_secret_env credentials.secret env
  with_hmac _ credentials env = env

  -- The environment of the process.
  unfoldable pub script_environ : SetupJob → AgentCredentials → String → Phase → Dict String String
  script_environ job credentials ssh_secret phase =
      let clean = erase hmac_secret_env (erase ssh_password_env machine.environ) in
      let keyed = with_hmac phase credentials clean in
      elim job.auth_method [
        | AuthMethod.ssh_key ↦ keyed
        | AuthMethod.password ↦ insert ssh_password_env ssh_secret keyed
      ]

  -- The temporary file of the key: its path if it was made, the files with it, and whether its
  -- making or writing raised.
  unfoldable pub write_key :
      SetupJob → String → Dict String String → Option String × Dict String String × Bool
  write_key job ssh_secret files = elim job.auth_method [
    | AuthMethod.ssh_key ↦ elim machine.key_file [
      | KeyFile.not_made ↦ (none, files, true)
      | KeyFile.whole ↦
          (some machine.temporary_path, insert machine.temporary_path ssh_secret files, false)
      | KeyFile.partial text ↦
          (some machine.temporary_path, insert machine.temporary_path text files, true)
    ]
    | AuthMethod.password ↦ (none, files, false)
  ]

  -- `finally: … os.remove(identity_path)`; an exception of the removal replaces the ending.
  unfoldable pub remove_key :
      Option String → Ending → Dict String String → Ending × Dict String String
  remove_key none ending files = (ending, files)
  remove_key (some path) ending files =
      if machine.removable then (ending, erase path files) else (machine_error, files)

  -- `messages[phase]`; a phase without a message never gets so far.
  abbrev failure_message : Phase → Error
  failure_message Phase.preflight = setup_step_error "Не удалось выполнить SSH preflight"
  failure_message Phase.install = setup_step_error "Не удалось установить агент на VPS"
  failure_message Phase.inspect = setup_step_error "Не удалось проверить VPN-окружение"
  failure_message (Phase.other name) = value_error name

  abbrev exit_ending : Phase → Exit → Ending
  exit_ending phase timed_out = failed (setup_step_error "Время операции установки истекло")
  exit_ending phase cancelled = interrupted
  exit_ending phase not_started = machine_error
  exit_ending phase (exited code) = if code == 0 then returned else failed (failure_message phase)

  -- From `build_command` to the end of the process.
  unfoldable pub run_command :
      SetupJob
      → AgentCredentials
      → String
      → Phase
      → Option String
      → Ending × Option (List String × Dict String String)
  unfolding build_command script_environ
  run_command job credentials ssh_secret phase identity_path =
      let env = script_environ job credentials ssh_secret phase in
      elim (build_command job credentials phase identity_path) [
        | err e ↦ (failed e, none)
        | ok command ↦
            if machine.script_is_file
            then (exit_ending phase (machine.execute command env), some (command, env))
            else (failed (setup_step_error "Скрипт установки агента не найден"), none)
      ]

  -- `_run_script`: how it ends, the files that are left, and the command and environment with which
  -- the start of a process was asked for, if it was.
  unfoldable pub run_script :
      SetupJob
      → AgentCredentials
      → String
      → Phase
      → Dict String String
      → Ending × Dict String String × Option (List String × Dict String String)
  unfolding write_key remove_key run_command
  run_script job credentials ssh_secret phase files =
      let (identity_path, written, broken) = write_key job ssh_secret files in
      let (ending, process) =
        if broken
        then (machine_error, none)
        else run_command job credentials ssh_secret phase identity_path in
      let (last, left) = remove_key identity_path ending written in (last, left, process)
