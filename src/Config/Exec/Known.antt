-- ===== src/Config/Exec/Known.antt =====
-- Command lists of set, unset, reboot and exit, in any table of commands that has these four of source/config.c.
use mathlib.Core.Path.{subst}
use kboot.Base.{◌≡◌, sym, ◌∙◌, List, [], ◌∷◌, Bool, true, inl, inr, All, Any}
use kboot.Base.Outcome.{done}
use kboot.CString.{Bytes}
use kboot.Config.{Commands, end, command}
use kboot.Config.Environ.{Environ, reboot_loader, exit_loader, same}
use kboot.Config.Environ.Laws.{IsDistinct, same_comm, same_trans}
use kboot.Config.Exec.{
  Command, command_list_exec, config_cmd_reboot, config_cmd_exit, set_command, unset_command,
  reboot_command, exit_command,
}
use kboot.Config.Exec.Laws.{
  Keeps, IsSafe, IsFound, AreFound, set-IsSafe, unset-IsSafe, set_loader-IsSafe,
  command_list_exec-Keeps,
}

-- The commands whose effects are known.
abbrev pub known_commands : List Command
known_commands = set_command ∷ unset_command ∷ reboot_command ∷ exit_command ∷ []

known-IsSafe : All (λ c. IsSafe c.func) known_commands
unfolding config_cmd_reboot config_cmd_exit
known-IsSafe = (
  set-IsSafe,
  (unset-IsSafe, (set_loader-IsSafe reboot_loader, (set_loader-IsSafe exit_loader, tt))),
)

-- A table in which the entries by these names have these functions; others may have any.
abbrev pub IsTable : List Command → Type 0
IsTable builtins =
    All (λ b. All (λ c. same b.name c.name ≡ true → b.func ≡ c.func) known_commands) builtins

-- A list that names no other commands.
abbrev pub NamesKnown : Commands → Type 0
NamesKnown end = Unit {0}
NamesKnown (command name args rest) =
    Any (λ c. same c.name name ≡ true) known_commands × NamesKnown rest

named-IsSafe :
    (name : Bytes) (b : Command) (cs : List Command)
    → All (λ c. IsSafe c.func) cs
    → All (λ c. same b.name c.name ≡ true → b.func ≡ c.func) cs
    → Any (λ c. same c.name name ≡ true) cs
    → same b.name name ≡ true
    → IsSafe b.func
named-IsSafe name b [] safe is known named = absurd known
named-IsSafe name b (c ∷ cs) (safe, _) (is, _) (inl here) named =
    let one = same_trans b.name name c.name named ∙ same_comm name c.name ∙ here in
    subst IsSafe (sym (is one)) safe
named-IsSafe name b (c ∷ cs) (_, safes) (_, are) (inr later) named =
    named-IsSafe name b cs safes are later named

known-IsFound :
    (builtins : List Command) (name : Bytes)
    → IsTable builtins
    → Any (λ c. same c.name name ≡ true) known_commands
    → IsFound builtins name
known-IsFound [] name table known = tt
known-IsFound (b ∷ builtins) name (is, table) known = (
  named-IsSafe name b known_commands known-IsSafe is known,
  known-IsFound builtins name table known,
)

known-AreFound :
    (builtins : List Command) (cs : Commands)
    → IsTable builtins
    → NamesKnown cs
    → AreFound builtins cs
known-AreFound builtins end table h = tt
known-AreFound builtins (command name args rest) table (known, more) =
    (known-IsFound builtins name table known, known-AreFound builtins rest table more)

-- A command list that names no commands but `set`, `unset`, `reboot` and `exit`, executed with any table of
-- built-in commands in which these are the functions of config.c, in an environment without two entries of one
-- name, comes to an end: no assertion fails, also not that of environ_set_loader. The reserved variables, the
-- device and the directory are as before.
pub known_exec-Keeps :
    (builtins : List Command) (cs : Commands) (env : Environ)
    → IsTable builtins
    → NamesKnown cs
    → IsDistinct env.entries
    → (cs' : Commands) × (env' : Environ) × (fine : Bool) × (command_list_exec builtins cs env
        ≡ done (cs', env', fine))
      × Keeps env env'
known_exec-Keeps builtins cs env table known h =
    command_list_exec-Keeps builtins cs env (known-AreFound builtins cs table known) h
