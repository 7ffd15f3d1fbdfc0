-- ===== src/Config/Environ.antt =====
-- Environments of source/config.c: the variables, the device, the directory and the loader that a
-- configuration sets. An environment is the value of an environ_t; menu_entries belongs to source/menu.c.
pub mod Laws
pub mod Contract
mod Tests
use kboot.Base.{
  ℕ, ◌+◌, ◌-◌, ◌%◌, ◌^◌, ◌≡◌, List, [], ◌∷◌, ◌++◌, Option, none, some, Bool, true, false, not, ◌==◌,
  if◌then◌else◌,
}
use kboot.Base.Int.{ℤ, pos, negsuc}
use kboot.Base.Outcome.{Outcome, done, stop, assertion, undefined, assert, ◌>>=◌, ◌>>◌}
use kboot.CString.{Bytes, strcmp}
use kboot.Config.{Value, string}

-- environ_entry_t.
pub record Entry : Type 0 where
  pub name : Bytes
  pub value : Value

-- What is used of fs_mount_t.
pub record Mount : Type 0 where
  pub label : Option Bytes
  pub uuid : Option Bytes

-- What is used of device_t; `address` tells devices apart.
pub record Device : Type 0 where
  pub address : ℕ
  pub name : Bytes
  pub mount : Option Mount

-- What is used of fs_handle_t: its address, whether it is a directory, and the address of the device of its
-- mount. The counts are apart.
pub record Handle : Type 0 where
  pub address : ℕ
  pub is_directory : Bool
  pub device : ℕ

-- The loader operations of this file, and others by the addresses of the operations and of their data.
pub data Loader : Type 0 where
  reboot_loader exit_loader : Loader
  other_loader : ℕ → ℕ → Loader

pub record Environ : Type 0 where
  pub entries : List Entry
  pub device : Option Device
  pub directory : Option Handle
  pub loader : Option Loader

abbrev pub is_zero : Option ℤ → Bool
is_zero (some (pos n)) = n == 0
is_zero (some (negsuc n)) = false
is_zero none = false

-- strcmp(u, v) == 0 on two terminated strings.
unfoldable pub same : Bytes → Bytes → Bool
same u v = is_zero (strcmp (u ++ (0 ∷ [])) (v ++ (0 ∷ [])))

unfoldable pub environ_lookup : List Entry → Bytes → Option Value
environ_lookup [] name = none
environ_lookup (e ∷ entries) name =
    let rest = environ_lookup entries name in if same e.name name then some e.value else rest

-- The entry keeps its name and its place, or a new one goes to the end.
unfoldable pub environ_insert : List Entry → Bytes → Value → List Entry
environ_insert [] name value = record { name = name; value = value } ∷ []
environ_insert (e ∷ entries) name value =
    let rest = environ_insert entries name value in
    if same e.name name then record e { value = value } ∷ entries else e ∷ rest

-- The first entry of the name is taken off.
unfoldable pub environ_remove : List Entry → Bytes → List Entry
environ_remove [] name = []
environ_remove (e ∷ entries) name =
    let rest = environ_remove entries name in if same e.name name then entries else e ∷ rest

abbrev pub is_one_of : List Bytes → Bytes → Bool
is_one_of [] name = false
is_one_of (n ∷ names) name = let rest = is_one_of names name in if same name n then true else rest

abbrev pub default_name : Bytes
default_name = b'd' ∷ b'e' ∷ b'f' ∷ b'a' ∷ b'u' ∷ b'l' ∷ b't' ∷ []

abbrev pub gui_name : Bytes
gui_name = b'g' ∷ b'u' ∷ b'i' ∷ []

abbrev pub gui_background_name : Bytes
gui_background_name =
    b'g' ∷ b'u' ∷ b'i' ∷ b'_' ∷ b'b' ∷ b'a' ∷ b'c' ∷ b'k' ∷ b'g' ∷ b'r' ∷ b'o' ∷ b'u' ∷ b'n' ∷ b'd'
    ∷ []

abbrev pub gui_icon_name : Bytes
gui_icon_name = b'g' ∷ b'u' ∷ b'i' ∷ b'_' ∷ b'i' ∷ b'c' ∷ b'o' ∷ b'n' ∷ []

abbrev pub gui_selection_name : Bytes
gui_selection_name =
    b'g' ∷ b'u' ∷ b'i' ∷ b'_' ∷ b's' ∷ b'e' ∷ b'l' ∷ b'e' ∷ b'c' ∷ b't' ∷ b'i' ∷ b'o' ∷ b'n' ∷ []

abbrev pub hidden_name : Bytes
hidden_name = b'h' ∷ b'i' ∷ b'd' ∷ b'd' ∷ b'e' ∷ b'n' ∷ []

abbrev pub timeout_name : Bytes
timeout_name = b't' ∷ b'i' ∷ b'm' ∷ b'e' ∷ b'o' ∷ b'u' ∷ b't' ∷ []

abbrev pub no_inherit_environ_names : List Bytes
no_inherit_environ_names =
    default_name ∷ gui_name ∷ gui_background_name ∷ gui_icon_name ∷ gui_selection_name ∷ hidden_name
    ∷ timeout_name ∷ []

abbrev pub device_name : Bytes
device_name = b'd' ∷ b'e' ∷ b'v' ∷ b'i' ∷ b'c' ∷ b'e' ∷ []

abbrev pub device_label_name : Bytes
device_label_name = device_name ++ (b'_' ∷ b'l' ∷ b'a' ∷ b'b' ∷ b'e' ∷ b'l' ∷ [])

abbrev pub device_uuid_name : Bytes
device_uuid_name = device_name ++ (b'_' ∷ b'u' ∷ b'u' ∷ b'i' ∷ b'd' ∷ [])

abbrev pub reserved_environ_names : List Bytes
reserved_environ_names = device_name ∷ device_label_name ∷ device_uuid_name ∷ []

unfoldable pub inherit : List Entry → List Entry
inherit [] = []
inherit (e ∷ entries) =
    let rest = inherit entries in
    if is_one_of no_inherit_environ_names e.name then rest else e ∷ rest

-- The number of references to each open handle, by its address.
abbrev pub Counts : Type 0
Counts = ℕ → ℕ

-- A handle whose count is 0 has been freed. The count has eight bits.
abbrev pub fs_retain : Handle → Counts → Outcome Counts
fs_retain h counts =
    if counts h.address == 0
    then stop undefined
    else done (λ a. if a == h.address then (counts a + 1) % 2 ^ 8 else counts a)

-- The handle goes where its count comes to 0.
abbrev pub fs_close : Handle → Counts → Outcome Counts
fs_close h counts =
    assert (not (counts h.address == 0))
    >> done (λ a. if a == h.address then counts a - 1 else counts a)

abbrev pub retain_directory : Option Handle → Counts → Outcome Counts
retain_directory none counts = done counts
retain_directory (some h) counts = fs_retain h counts

abbrev pub close_directory : Option Handle → Counts → Outcome Counts
close_directory none counts = done counts
close_directory (some h) counts = fs_close h counts

unfoldable pub environ_create : Option Environ → Counts → Outcome (Environ × Counts)
environ_create none counts =
    done (record { entries = []; device = none; directory = none; loader = none }, counts)
environ_create (some parent) counts = retain_directory parent.directory counts >>= λ counts'. done (
  record {
    entries = inherit parent.entries;
    device = parent.device;
    directory = parent.directory;
    loader = none;
  },
  counts',
)

-- A variable that the mount may have a value for.
abbrev pub set_if : Bytes → Option Bytes → List Entry → List Entry
set_if name none entries = entries
set_if name (some s) entries = environ_insert entries name (string s)

abbrev pub set_mount : Option Mount → List Entry → List Entry
set_mount none entries = environ_remove (environ_remove entries device_label_name) device_uuid_name
set_mount (some m) entries =
    set_if device_uuid_name m.uuid (set_if device_label_name m.label entries)

unfoldable pub environ_set_device : Environ → Device → Counts → Outcome (Environ × Counts)
environ_set_device env d counts = close_directory env.directory counts >>= λ counts'. done (
  record env {
    entries = set_mount d.mount (environ_insert env.entries device_name (string d.name));
    device = some d;
    directory = none;
  },
  counts',
)

abbrev pub is_on : Option Device → Handle → Bool
is_on none h = false
is_on (some d) h = h.device == d.address

unfoldable pub environ_set_directory : Environ → Handle → Counts → Outcome (Environ × Counts)
environ_set_directory env h counts =
    assert h.is_directory
    >> assert (is_on env.device h)
    >> (close_directory env.directory counts >>= λ counts'.
        fs_retain h counts' >>= λ counts''. done (record env { directory = some h }, counts''))

abbrev pub is_some {ℓ} : {A : Type ℓ} → Option A → Bool
is_some none = false
is_some (some a) = true

unfoldable pub environ_set_loader : Environ → Loader → Outcome Environ
environ_set_loader env ops =
    assert (not (is_some env.loader)) >> done (record env { loader = some ops })
