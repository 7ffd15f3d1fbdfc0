-- ===== src/Config/Environ/Tests.antt =====
-- Runs of the operations on environments, of a substitution and of a command list.
use kboot.Base.{
  ◌≡◌, refl, [], ◌∷◌, List, none, some, Bool, true, false, inl, inr, if◌then◌else◌, arith,
}
use kboot.Base.Outcome.{done}
use kboot.CString.{Bytes, strcmp}
use kboot.Config.{Commands, integer, string, nil, cons, end, command}
use kboot.Config.Environ.{
  Entry, Device, Handle, Environ, Counts, same, environ_lookup, gui_name, device_name,
  environ_set_device,
}
use kboot.Config.Environ.Laws.{IsDistinct}
use kboot.Config.Environ.Contract.{environ_set_device_lem, device_variable, one_less}
use kboot.Config.Substitute.{set_string, value_substitute}
use kboot.Config.Substitute.Templates.{
  Piece, text, variable, render, expand, value_substitute-render,
}
use kboot.Config.Exec.{
  Command, command_list_exec, set_command, unset_command, reboot_command, exit_command,
}
use kboot.Config.Reader.{Reader, ok}
use kboot.Config.Parser.{config_parse}
use kboot.Config.Printer.{commands_text, IsString}
use kboot.Config.Exec.{variable_name_valid}
use kboot.Config.Exec.Script.{Finds, set_script, set_script-exec}
use kboot.Config.Exec.Laws.{Keeps}
use kboot.Config.Exec.Known.{IsTable, NamesKnown, known_exec-Keeps}

abbrev a_name : Bytes
a_name = b'a' ∷ []

-- a = 5, gui = "x", device = "d"
abbrev entries : List Entry
entries =
    record { name = a_name; value = integer 5 }
    ∷ record { name = gui_name; value = string (b'x' ∷ []) }
    ∷ record { name = device_name; value = string (b'd' ∷ []) }
    ∷ []

entries-IsDistinct : IsDistinct entries
unfolding same strcmp environ_lookup
entries-IsDistinct = (refl, (refl, (refl, tt)))

abbrev directory : Handle
directory = record { address = 7; is_directory = true; device = 1 }

abbrev environment : Environ
environment = record { entries = entries; device = none; directory = some directory; loader = none }

abbrev counts : Counts
counts = λ a. 1

-- A mounted file system with a label and no UUID.
abbrev disk : Device
disk = record {
  address = 1;
  name = b'h' ∷ [];
  mount = some (record { label = some (b'L' ∷ []); uuid = none });
}

environ_set_device_lem_example :
    (env : Environ) × (environ_set_device environment disk counts
      ≡ done (env, one_less (some directory) counts))
    × IsDistinct env.entries
    × ((m : Bytes) → environ_lookup env.entries m ≡ device_variable disk entries m)
    × (env.device ≡ some disk)
    × (env.directory ≡ none)
    × (env.loader ≡ none)
environ_set_device_lem_example =
    environ_set_device_lem environment disk counts entries-IsDistinct (omega arith)

-- v${a}
abbrev pieces : List Piece
pieces = text (b'v' ∷ []) ∷ variable a_name ∷ []

value_substitute-render_example :
    value_substitute entries (string (render pieces))
    ≡ set_string (render pieces) (expand entries pieces)
value_substitute-render_example =
    value_substitute-render entries pieces ((omega arith, tt), ((refl, tt), tt))

expanded : expand entries pieces ≡ some (b'v' ∷ b'5' ∷ [])
unfolding same strcmp environ_lookup
expanded = refl

-- set "b" 1
abbrev script : Commands
script = command (b's' ∷ b'e' ∷ b't' ∷ []) (cons (string (b'b' ∷ [])) (cons (integer 1) nil)) end

-- Another file's command, and those of config.c.
abbrev table : List Command
table =
    record { name = device_name; func = λ args env. done (env, false) }
    ∷ set_command
    ∷ unset_command
    ∷ reboot_command
    ∷ exit_command
    ∷ []

table-IsTable : IsTable table
unfolding same strcmp
table-IsTable = (
  (no_match, (no_match, (no_match, (no_match, tt)))),
  (
    ((λ _. refl), (no_match, (no_match, (no_match, tt)))),
    (
      (no_match, ((λ _. refl), (no_match, (no_match, tt)))),
      (
        (no_match, (no_match, ((λ _. refl), (no_match, tt)))),
        ((no_match, (no_match, (no_match, ((λ _. refl), tt)))), tt),
      ),
    ),
  ),
)
  where
    no_match : {A : Type 0} → false ≡ true → A
    no_match e = absurd (ground (arith, e))

script-NamesKnown : NamesKnown script
unfolding same strcmp
script-NamesKnown = (inl refl, tt)

known_exec-Keeps_example :
    (cs : Commands) × (env : Environ) × (fine : Bool) × (command_list_exec table script environment
      ≡ done (cs, env, fine))
    × Keeps environment env
known_exec-Keeps_example =
    known_exec-Keeps table script environment table-IsTable script-NamesKnown entries-IsDistinct

abbrev b_name : Bytes
b_name = b'b' ∷ []

b_name-IsString : IsString b_name
b_name-IsString = (((omega arith, omega arith, omega arith), tt), omega arith)

b_name-valid : variable_name_valid b_name ≡ true
unfolding variable_name_valid same strcmp
b_name-valid = refl

table-Finds : Finds table set_command.name set_command.func
unfolding same strcmp
table-Finds = (inr (inl refl), (no_match, ((λ _. refl), (no_match, (no_match, (no_match, tt))))))
  where
    no_match : {A : Type 0} → false ≡ true → A
    no_match e = absurd (ground (arith, e))

set_script-exec_example :
    (cs cs' : Commands) × (r : Reader) × (env : Environ) × (config_parse []
        (commands_text (set_script b_name 64) [])
      ≡ ok cs r)
    × (command_list_exec table cs environment ≡ done (cs', env, true))
    × ((m : Bytes)
        → environ_lookup env.entries m
          ≡ (if same b_name m then some (integer 64) else environ_lookup entries m))
set_script-exec_example =
    set_script-exec table b_name 64 environment table-Finds b_name-IsString b_name-valid
      (omega arith) refl
