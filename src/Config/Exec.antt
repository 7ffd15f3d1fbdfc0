-- ===== src/Config/Exec.antt =====
-- The execution of command lists, command_exec and command_list_exec of source/config.c, and the commands
-- set, unset, reboot and exit. current_environ is the environment that is passed from command to command.
pub mod Laws
pub mod Known
pub mod Script
use kboot.Base.{
  ℕ, List, [], ◌∷◌, ◌++◌, Option, none, some, Bool, true, false, not, ◌&&◌, ◌||◌, ◌==◌,
  if◌then◌else◌,
}
use kboot.Base.Outcome.{Outcome, done, stop, ◌>>=◌}
use kboot.CString.{Bytes, isalnum}
use kboot.Config.{Value, Values, Commands, string, nil, cons, end, command}
use kboot.Config.Reader.{until_nul}
use kboot.Config.Environ.{
  Environ, Loader, reboot_loader, exit_loader, same, environ_insert, environ_remove,
  environ_set_loader, is_one_of, is_some, reserved_environ_names,
}
use kboot.Config.Substitute.{values_substitute}

-- command_t: what a command makes of the current environment, and whether it succeeds.
pub record Command : Type 0 where
  pub name : Bytes
  pub func : Values → Environ → Outcome (Environ × Bool)

-- The search for the command, and its call; an unknown command is an error.
unfoldable pub call : List Command → Bytes → Values → Environ → Outcome (Environ × Bool)
call [] name args env = done (env, false)
call (c ∷ builtins) name args env =
    let rest = call builtins name args env in if same c.name name then c.func args env else rest

-- The arguments are substituted in place.
abbrev pub call_with :
    List Command → Bytes → Values × Bool → Environ → Outcome (Values × Environ × Bool)
call_with builtins name (args, false) env = done (args, env, false)
call_with builtins name (args, true) env =
    call builtins name args env >>= λ (env', fine). done (args, env', fine)

unfoldable pub command_exec :
    List Command → Bytes → Values → Environ → Outcome (Values × Environ × Bool)
command_exec builtins name args env =
    call_with builtins name (values_substitute env.entries args) env

-- The rest of the list after a command, which a failure skips.
abbrev pub exec_rest :
    Bytes
    → Commands
    → (Environ → Outcome (Commands × Environ × Bool))
    → Values × Environ × Bool
    → Outcome (Commands × Environ × Bool)
exec_rest name rest more (args, env, false) = done (command name args rest, env, false)
exec_rest name rest more (args, env, true) =
    more env >>= λ (rest', env', fine). done (command name args rest', env', fine)

-- No command is run once a loader is set.
unfoldable pub command_list_exec :
    List Command → Commands → Environ → Outcome (Commands × Environ × Bool)
command_list_exec builtins end env = done (end, env, true)
command_list_exec builtins (command name args rest) env =
    if is_some env.loader
    then done (command name args rest, env, false)
    else command_exec builtins name args env
      >>= exec_rest name rest (command_list_exec builtins rest)

abbrev pub are_name_chars : Bytes → Bool
are_name_chars [] = true
are_name_chars (c ∷ s) = (isalnum c || c == b'_') && are_name_chars s

unfoldable pub variable_name_valid : Bytes → Bool
variable_name_valid name =
    are_name_chars (until_nul name) && not (is_one_of reserved_environ_names name)

unfoldable pub config_cmd_set : Values → Environ → Outcome (Environ × Bool)
config_cmd_set (cons (string name) (cons value nil)) env =
    if variable_name_valid name
    then done (record env { entries = environ_insert env.entries name value }, true)
    else done (env, false)
config_cmd_set args env = done (env, false)

unfoldable pub config_cmd_unset : Values → Environ → Outcome (Environ × Bool)
config_cmd_unset (cons (string name) nil) env =
    if variable_name_valid name
    then done (record env { entries = environ_remove env.entries name }, true)
    else done (env, false)
config_cmd_unset args env = done (env, false)

abbrev pub set_loader : Loader → Values → Environ → Outcome (Environ × Bool)
set_loader ops nil env = environ_set_loader env ops >>= λ env'. done (env', true)
set_loader ops (cons v vs) env = done (env, false)

unfoldable pub config_cmd_reboot : Values → Environ → Outcome (Environ × Bool)
config_cmd_reboot args env = set_loader reboot_loader args env

unfoldable pub config_cmd_exit : Values → Environ → Outcome (Environ × Bool)
config_cmd_exit args env = set_loader exit_loader args env

-- Entries of the table of built-in commands, which other files add to.
abbrev pub set_command : Command
set_command = record { name = b's' ∷ b'e' ∷ b't' ∷ []; func = config_cmd_set }

abbrev pub unset_command : Command
unset_command = record { name = b'u' ∷ b'n' ∷ b's' ∷ b'e' ∷ b't' ∷ []; func = config_cmd_unset }

abbrev pub reboot_command : Command
reboot_command = record {
  name = b'r' ∷ b'e' ∷ b'b' ∷ b'o' ∷ b'o' ∷ b't' ∷ [];
  func = config_cmd_reboot;
}

abbrev pub exit_command : Command
exit_command = record { name = b'e' ∷ b'x' ∷ b'i' ∷ b't' ∷ []; func = config_cmd_exit }
