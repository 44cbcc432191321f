-- ===== src/Worker/Secrets.antt =====
-- Where the secrets of an installation go, and where they do not.
use vpn_controll_app.Base.{
  true, refl, ◌⊎◌, inl, inr, ◌≡◌, ◌≢◌, arith, String, Option, none, some, List, nat_Eq, string_Eq,
}
use vpn_controll_app.Dict.{Dict, lookup, insert, erase}
use vpn_controll_app.Dict.Laws.{lookup-insert, lookup-erase}
use vpn_controll_app.Domain.Status.{AuthMethod}
use vpn_controll_app.Domain.Entities.{SetupJob}
use vpn_controll_app.Settings.{Settings}
use vpn_controll_app.Worker.Runner.{AgentCredentials}
use vpn_controll_app.Worker.Deploy.{
  Phase, Machine, KeyFile, ssh_password_env, hmac_secret_env, auth_arguments, phase_arguments,
  build_command, script_environ, with_hmac, write_key, remove_key, run_command, run_script,
}

-- The command with which a process was asked for, if one was.
abbrev pub command_of : Option (List String × Dict String String) → Option (List String)
command_of none = none
command_of (some (command, env)) = some command

KeyFile-cases :
    (k : KeyFile)
    → (k ≡ KeyFile.not_made) ⊎ (k ≡ KeyFile.whole) ⊎ ((x : String) × (k ≡ KeyFile.partial x))
KeyFile-cases KeyFile.not_made = inl refl
KeyFile-cases KeyFile.whole = inr (inl refl)
KeyFile-cases (KeyFile.partial x) = inr (inr (x, refl))

module _ (machine : Machine) (settings : Settings) (job : SetupJob) where
  -- The command line of the script is the same whatever the secrets are: the SSH secret and the
  -- agent's secret never reach the arguments of the process.
  pub run_script-no_secret_in_command :
      (credentials : AgentCredentials) (other_secret ssh_secret other_ssh_secret : String)
      (phase : Phase) (files : Dict String String)
      → command_of (run_script machine settings job credentials ssh_secret phase files).2
        ≡ command_of
            (run_script machine settings job
              (record credentials { secret = other_secret })
              other_ssh_secret
              phase
              files).2
  unfolding run_script run_command build_command auth_arguments phase_arguments write_key remove_key
  run_script-no_secret_in_command credentials other_secret ssh_secret other_ssh_secret phase files =
      ground arith

  -- A file that is made and removed.
  erased :
      (path text : String) (files : Dict String String)
      → lookup machine.temporary_path files ≡ none
      → lookup path (erase machine.temporary_path (insert machine.temporary_path text files))
        ≡ lookup path files
  erased path text files fresh = ground (
    arith,
    lookup-erase machine.temporary_path path (insert machine.temporary_path text files),
    lookup-insert machine.temporary_path path text files,
    string_Eq.is_equal_iff machine.temporary_path path,
  )

  -- However a run of the script ends (the process exits, runs out of time, is cancelled or is not
  -- started, the script is missing, the phase is unknown, or the file of the SSH key is not made or
  -- not written to the end), the files that it wrote are gone and the others as they were before,
  -- where the temporary path was free and the system lets the file be removed.
  pub run_script-no_key_left :
      (credentials : AgentCredentials) (ssh_secret path : String) (phase : Phase)
      (files : Dict String String)
      → lookup machine.temporary_path files ≡ none
      → machine.removable ≡ true
      → lookup path (run_script machine settings job credentials ssh_secret phase files).1
        ≡ lookup path files
  unfolding run_script write_key remove_key
  run_script-no_key_left credentials ssh_secret path phase files fresh removable =
      elim (KeyFile-cases machine.key_file) [
        | inl not_made_file ↦ ground (arith, not_made_file)
        | inr (inl whole) ↦ ground (arith, whole, removable, erased path ssh_secret files fresh)
        | inr (inr (text, partial_file)) ↦
            ground (arith, partial_file, removable, erased path text files fresh)
      ]

  -- For a job that authenticates with a key, in every phase but the one that installs the agent,
  -- the process's environment has neither the SSH password nor the agent's secret, whatever the
  -- worker's own environment has under their names.
  pub script_environ-least :
      (credentials : AgentCredentials) (ssh_secret : String) (phase : Phase)
      → job.auth_method ≡ AuthMethod.ssh_key
      → phase ≢ Phase.install
      → let env = script_environ machine settings job credentials ssh_secret phase in
        (lookup ssh_password_env env ≡ none) × (lookup hmac_secret_env env ≡ none)
  unfolding script_environ with_hmac
  script_environ-least credentials ssh_secret phase key other =
      let clean = erase hmac_secret_env (erase ssh_password_env machine.environ) in
      (
        ground (
          arith,
          lookup-erase hmac_secret_env ssh_password_env (erase ssh_password_env machine.environ),
          lookup-erase ssh_password_env ssh_password_env machine.environ,
        ),
        ground (
          arith,
          lookup-erase hmac_secret_env hmac_secret_env (erase ssh_password_env machine.environ),
        ),
      )
