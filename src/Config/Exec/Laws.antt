-- ===== src/Config/Exec/Laws.antt =====
-- What the commands of this file can change of an environment.
use kboot.Base.{
  ◌≡◌, refl, sym, ap, ◌∙◌, List, [], ◌∷◌, none, some, Bool, true, false, not, ◌&&◌, if◌then◌else◌,
  Bool-cases, Option-cases, inl, inr, All, arith,
}
use kboot.Base.Outcome.{Outcome, done}
use kboot.CString.{Bytes}
use kboot.Config.{Value, Values, Commands, string, nil, cons, end, command}
use kboot.Config.Reader.{until_nul}
use kboot.Config.Environ.{
  Environ, Loader, same, environ_lookup, environ_insert, environ_remove, environ_set_loader,
  is_one_of, is_some, reserved_environ_names,
}
use kboot.Config.Environ.Laws.{
  IsDistinct, is_one_of-same, environ_lookup-environ_insert, environ_insert-IsDistinct,
  environ_lookup-environ_remove, environ_remove-IsDistinct,
}
use kboot.Config.Substitute.{values_substitute}
use kboot.Config.Exec.{
  Command, call, call_with, command_exec, exec_rest, command_list_exec, are_name_chars,
  variable_name_valid, config_cmd_set, config_cmd_unset, set_loader,
}

-- The reserved variables, the device and the directory are as they were, and the names are distinct.
abbrev pub Keeps : Environ → Environ → Type 0
Keeps env env' =
    IsDistinct env'.entries
    × ((m : Bytes)
        → is_one_of reserved_environ_names m ≡ true
        → environ_lookup env'.entries m ≡ environ_lookup env.entries m)
    × (env'.device ≡ env.device)
    × (env'.directory ≡ env.directory)

-- A command that comes to an end, whether it succeeds or not, and keeps these.
abbrev pub IsSafe : (Values → Environ → Outcome (Environ × Bool)) → Type 0
IsSafe f =
    (args : Values) (env : Environ)
    → IsDistinct env.entries
    → env.loader ≡ none
    → (env' : Environ) × (fine : Bool) × (f args env ≡ done (env', fine)) × Keeps env env'

same_env : (env : Environ) → IsDistinct env.entries → Keeps env env
same_env env h = (h, λ m k. refl, refl, refl)

Keeps-trans : (a b c : Environ) → Keeps a b → Keeps b c → Keeps a c
Keeps-trans a b c h k = (k.0, λ m r. k.1 m r ∙ h.1 m r, k.2 ∙ h.2, k.3 ∙ h.3)

and_not : (a b : Bool) → (a && not b) ≡ true → b ≡ false
and_not true false h = refl
and_not true true h = sym h
and_not false b h = ground arith

clash : (b c : Bool) → b ≡ c → b ≡ false → c ≡ true → ⊥
clash true c e f t = ground arith
clash false c e f t = ground arith

-- A name that set and unset take is none of the reserved ones.
valid-apart :
    (n m : Bytes)
    → variable_name_valid n ≡ true
    → is_one_of reserved_environ_names m ≡ true
    → same n m ≡ false
unfolding variable_name_valid
valid-apart n m v r =
    let free = and_not (are_name_chars (until_nul n)) (is_one_of reserved_environ_names n) v in
    elim (Bool-cases (same n m)) [
      | inl k ↦ absurd (clash _ _ (is_one_of-same reserved_environ_names n m k) free r)
      | inr k ↦ k
    ]

set-Keeps :
    (env : Environ) (n : Bytes) (v : Value)
    → IsDistinct env.entries
    → variable_name_valid n ≡ true
    → Keeps env (record env { entries = environ_insert env.entries n v })
set-Keeps env n v h k = (
  environ_insert-IsDistinct env.entries n v h,
  λ m r. environ_lookup-environ_insert env.entries n m v ∙ rw (valid-apart n m k r) refl,
  refl,
  refl,
)

unset-Keeps :
    (env : Environ) (n : Bytes)
    → IsDistinct env.entries
    → variable_name_valid n ≡ true
    → Keeps env (record env { entries = environ_remove env.entries n })
unset-Keeps env n h k = (
  environ_remove-IsDistinct env.entries n h,
  λ m r. environ_lookup-environ_remove env.entries n m h ∙ rw (valid-apart n m k r) refl,
  refl,
  refl,
)

-- A test of the arguments, and what is done where it holds.
guarded :
    (b : Bool) (env next : Environ)
    → IsDistinct env.entries
    → (b ≡ true → Keeps env next)
    → (env' : Environ) × (fine : Bool) × (if◌then◌else◌ {A = Outcome (Environ × Bool)} b
          (done (next, true))
          (done (env, false))
        ≡ done (env', fine))
      × Keeps env env'
guarded true env next h k = (next, true, refl, k refl)
guarded false env next h k = (env, false, refl, same_env env h)

pub set-IsSafe : IsSafe config_cmd_set
unfolding config_cmd_set
set-IsSafe (cons (string name) (cons value nil)) env h l =
    guarded (variable_name_valid name) env
      (record env { entries = environ_insert env.entries name value }) h
      (set-Keeps env name value h)
set-IsSafe args env h l = (env, false, refl, same_env env h)

pub unset-IsSafe : IsSafe config_cmd_unset
unfolding config_cmd_unset
unset-IsSafe (cons (string name) nil) env h l =
    guarded (variable_name_valid name) env
      (record env { entries = environ_remove env.entries name }) h (unset-Keeps env name h)
unset-IsSafe args env h l = (env, false, refl, same_env env h)

pub set_loader-IsSafe : (ops : Loader) → IsSafe (set_loader ops)
unfolding environ_set_loader
set_loader-IsSafe ops nil env h l =
    (record env { loader = some ops }, true, rw l refl, (h, λ m r. refl, refl, refl))
set_loader-IsSafe ops (cons v vs) env h l = (env, false, refl, same_env env h)

-- The command that an execution finds by a name, in a table, is a safe one, or there is none.
abbrev pub IsFound : List Command → Bytes → Type 0
IsFound builtins name = All (λ c. same c.name name ≡ true → IsSafe c.func) builtins

call-IsSafe :
    (builtins : List Command) (name : Bytes) → IsFound builtins name → IsSafe (call builtins name)
unfolding call
call-IsSafe [] name safe args env h l = (env, false, refl, same_env env h)
call-IsSafe (c ∷ builtins) name safe args env h l = elim (Bool-cases (same c.name name)) [
  | inl k ↦ rw k (safe.0 k args env h l)
  | inr k ↦ rw k (call-IsSafe builtins name safe.1 args env h l)
]

-- A command of a list, with its arguments substituted.
call_with-Keeps :
    (builtins : List Command) (name : Bytes) (args : Values × Bool) (env : Environ)
    → IsFound builtins name
    → IsDistinct env.entries
    → env.loader ≡ none
    → (args' : Values) × (env' : Environ) × (fine : Bool) × (call_with builtins name args env
        ≡ done (args', env', fine))
      × Keeps env env'
call_with-Keeps builtins name (args, false) env safe h l = (args, env, false, refl, same_env env h)
call_with-Keeps builtins name (args, true) env safe h l =
    let (env', fine, run, keeps) = call-IsSafe builtins name safe args env h l in
    (args, env', fine, rw run refl, keeps)

exec_rest-Keeps :
    (name : Bytes) (rest : Commands) (more : Environ → Outcome (Commands × Environ × Bool))
    (args : Values) (env env' : Environ) (fine : Bool)
    → Keeps env env'
    → (IsDistinct env'.entries
        → (cs' : Commands) × (env'' : Environ) × (fine' : Bool) × (more env'
            ≡ done (cs', env'', fine'))
          × Keeps env' env'')
    → (cs' : Commands) × (env'' : Environ) × (fine' : Bool) × (exec_rest name rest more
          (args, env', fine)
        ≡ done (cs', env'', fine'))
      × Keeps env env''
exec_rest-Keeps name rest more args env env' false keeps k =
    (command name args rest, env', false, refl, keeps)
exec_rest-Keeps name rest more args env env' true keeps k =
    let (cs', env'', fine, run, keeps') = k keeps.0 in
    (command name args cs', env'', fine, rw run refl, Keeps-trans env env' env'' keeps keeps')

-- What the commands of a list are found as.
abbrev pub AreFound : List Command → Commands → Type 0
AreFound builtins end = Unit {0}
AreFound builtins (command name args rest) = IsFound builtins name × AreFound builtins rest

-- Where every command of the list is safe, it comes to an end: no assertion fails, also not that of
-- environ_set_loader; and the reserved variables, the device and the directory are as before.
pub command_list_exec-Keeps :
    (builtins : List Command) (cs : Commands) (env : Environ)
    → AreFound builtins cs
    → IsDistinct env.entries
    → (cs' : Commands) × (env' : Environ) × (fine : Bool) × (command_list_exec builtins cs env
        ≡ done (cs', env', fine))
      × Keeps env env'
unfolding command_list_exec command_exec
command_list_exec-Keeps builtins end env safe h = (end, env, true, refl, same_env env h)
command_list_exec-Keeps builtins (command name args rest) env (safe, safes) h =
    elim (Option-cases env.loader) [
      | inl l ↦
          let (args', env', fine, run, keeps) =
            call_with-Keeps builtins name (values_substitute env.entries args) env safe h l in
          let (cs', env'', fine', run', keeps') =
            exec_rest-Keeps name rest (command_list_exec builtins rest) args' env env' fine keeps
              (command_list_exec-Keeps builtins rest env' safes) in
          let none_yet : is_some env.loader ≡ false = ap is_some l in
          (cs', env'', fine', rw none_yet (rw run run'), keeps')
      | inr (ops, l) ↦
          let taken : is_some env.loader ≡ true = ap is_some l in
          (command name args rest, env, false, rw taken refl, same_env env h)
    ]
