-- ===== src/Config/Exec/Script.antt =====
-- From the text of a configuration file to the variables: the parser and the execution together.
use mathlib.Core.Path.{subst}
use kboot.Base.{
  ℕ, ◌^◌, ◌<◌, ◌≡◌, ◌≢◌, refl, ap, List, [], ◌∷◌, append-nil, none, some, Bool, true, false, ◌&&◌,
  ◌||◌, ◌==◌, if◌then◌else◌, All, Any, Bool-cases, inl, inr, ◌⊎◌, ◌∙◌, arith,
}
use kboot.Base.Lists.{All-map}
use kboot.Base.Outcome.{Outcome, done}
use kboot.CString.{Bytes, isalnum}
use kboot.Config.{Values, Commands, integer, string, nil, cons, end, command}
use kboot.Config.Reader.{Reader, ok}
use kboot.Config.Parser.{config_parse}
use kboot.Config.Printer.{commands_text, IsPrintable, IsString, IsWord, AreCommands}
use kboot.Config.Printer.Reading.{until_nul_lem}
use kboot.Config.Printer.RoundTrip.{config_parse-commands_text}
use kboot.Config.Environ.{Environ, Entry, same, environ_lookup, environ_insert, is_some}
use kboot.Config.Environ.Laws.{environ_lookup-environ_insert}
use kboot.Config.Substitute.{value_substitute, values_substitute}
use kboot.Config.Substitute.Templates.{text, value_substitute-render}
use kboot.Config.Exec.{
  call, command_exec, command_list_exec, are_name_chars, variable_name_valid, config_cmd_set,
  set_command, Command,
}

abbrev set_name : Bytes
set_name = b's' ∷ b'e' ∷ b't' ∷ []

-- set "name" number
abbrev pub set_script : Bytes → ℕ → Commands
set_script n k = command set_name (cons (string n) (cons (integer k) nil)) end

set_name-IsWord : IsWord set_name
set_name-IsWord = (
  (
    (refl, omega arith, omega arith, omega arith, omega arith),
    (
      (refl, omega arith, omega arith, omega arith, omega arith),
      ((refl, omega arith, omega arith, omega arith, omega arith), tt),
    ),
  ),
  omega arith,
  omega arith,
)

set_script-AreCommands :
    (n : Bytes) (k : ℕ) → IsString n → k < 2 ^ 64 → AreCommands (set_script n k)
unfolding IsPrintable
set_script-AreCommands n k hn hk = (set_name-IsWord, (hn, (hk, tt)), tt)

and_true : (a b : Bool) → (a && b) ≡ true → (a ≡ true) × (b ≡ true)
and_true true b h = (refl, h)
and_true false b h = ground arith

no_dollar : (c : ℕ) → (isalnum c || c == b'_') ≡ true → c ≢ b'$'
no_dollar c h = ground (arith, h)

name-plain : (n : Bytes) → are_name_chars n ≡ true → All (λ c. c ≢ b'$') n
name-plain [] v = tt
name-plain (c ∷ n) v =
    let (first, rest) = and_true (isalnum c || c == b'_') (are_name_chars n) v in
    (no_dollar c first, name-plain n rest)

-- A name that set takes has no '$'.
valid-plain : (n : Bytes) → IsString n → variable_name_valid n ≡ true → All (λ c. c ≢ b'$') n
unfolding variable_name_valid
valid-plain n h v =
    let whole = until_nul_lem n (All-map _ _ n (λ c k. k.2) h.0) in
    name-plain n (subst (λ s. are_name_chars s ≡ true) whole (and_true _ _ v).0)

-- A string without '$' stays as it is.
substitute-plain :
    (es : List Entry) (n : Bytes)
    → All (λ c. c ≢ b'$') n
    → value_substitute es (string n) ≡ (string n, true)
substitute-plain es n h =
    subst (λ t. value_substitute es (string t) ≡ (string t, true)) (append-nil n)
      (value_substitute-render es (text n ∷ []) (h, tt))

set_args :
    (es : List Entry) (n : Bytes) (k : ℕ)
    → All (λ c. c ≢ b'$') n
    → values_substitute es (cons (string n) (cons (integer k) nil))
      ≡ (cons (string n) (cons (integer k) nil), true)
unfolding value_substitute
set_args es n k h = rw (substitute-plain es n h) refl

-- In a table, the commands by a name, one at least, are the same function.
abbrev pub Finds : List Command → Bytes → (Values → Environ → Outcome (Environ × Bool)) → Type 0
Finds builtins name func =
    Any (λ c. same c.name name ≡ true) builtins
    × All (λ c. same c.name name ≡ true → c.func ≡ func) builtins

call-Finds :
    (builtins : List Command) (name : Bytes) (func : Values → Environ → Outcome (Environ × Bool))
    (args : Values) (env : Environ)
    → Finds builtins name func
    → call builtins name args env ≡ func args env
unfolding call
call-Finds [] name func args env (has, are) = absurd has
call-Finds (c ∷ builtins) name func args env (has, (is, are)) =
    elim (Bool-cases (same c.name name)) [
      | inl k ↦ rw k (ap (λ f. f args env) (is k))
      | inr k ↦ rw k (call-Finds builtins name func args env (later has k, are))
    ]
  where
    later :
        (same c.name name ≡ true) ⊎ Any (λ d. same d.name name ≡ true) builtins
        → same c.name name ≡ false
        → Any (λ d. same d.name name ≡ true) builtins
    later (inl here) k = absurd (ground (arith, here, k))
    later (inr more) k = more

set-valid :
    (n : Bytes) (k : ℕ) (env : Environ)
    → variable_name_valid n ≡ true
    → config_cmd_set (cons (string n) (cons (integer k) nil)) env
      ≡ done (record env { entries = environ_insert env.entries n (integer k) }, true)
unfolding config_cmd_set
set-valid n k env v = rw v refl

-- The text of a command that sets a number, parsed and executed where no loader is set, with any table of commands
-- whose `set` is that of config.c: the parser and the command succeed, the variable has the number, and every
-- other variable is as it was.
pub set_script-exec :
    (builtins : List Command) (n : Bytes) (k : ℕ) (env : Environ)
    → Finds builtins set_command.name set_command.func
    → IsString n
    → variable_name_valid n ≡ true
    → k < 2 ^ 64
    → env.loader ≡ none
    → (cs cs' : Commands) × (r : Reader) × (env' : Environ) × (config_parse []
          (commands_text (set_script n k) [])
        ≡ ok cs r)
      × (command_list_exec builtins cs env ≡ done (cs', env', true))
      × ((m : Bytes)
          → environ_lookup env'.entries m
            ≡ (if same n m then some (integer k) else environ_lookup env.entries m))
unfolding command_list_exec command_exec
set_script-exec builtins n k env finds h v fits l =
    let (r, parsed, _, _) =
      config_parse-commands_text (set_script n k) (set_script-AreCommands n k h fits) in
    let args = set_args env.entries n k (valid-plain n h v) in
    let none_yet : is_some env.loader ≡ false = ap is_some l in
    let called =
      call-Finds builtins set_name config_cmd_set (cons (string n) (cons (integer k) nil)) env finds
      ∙ set-valid n k env v in
    (
      set_script n k,
      set_script n k,
      r,
      record env { entries = environ_insert env.entries n (integer k) },
      parsed,
      rw none_yet (rw args (rw called refl)),
      λ m. environ_lookup-environ_insert env.entries n m (integer k),
    )
