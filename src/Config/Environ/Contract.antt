-- ===== src/Config/Environ/Contract.antt =====
-- What the operations on environments do, as operations on a partial function from names to values.
use mathlib.Core.Option
use kboot.Base.{
  ◌%◌, ◌^◌, ◌+◌, ◌-◌, ◌<◌, ◌≡◌, refl, sym, ap, ◌∙◌, List, Option, none, some, false, ◌==◌,
  if◌then◌else◌, Bool-cases, or_else, inl, inr, arith,
}
use kboot.Base.Outcome.{done}
use kboot.CString.{Bytes, strcmp}
use kboot.Config.{Value, string}
use kboot.Config.Environ.{
  Entry, Mount, Device, Handle, Environ, Counts, same, environ_lookup, environ_insert,
  environ_remove, is_one_of, no_inherit_environ_names, device_name, device_label_name,
  device_uuid_name, set_if, set_mount, retain_directory, close_directory, environ_create,
  environ_set_device,
}
use kboot.Config.Environ.Laws.{
  IsDistinct, environ_lookup-environ_insert, environ_insert-IsDistinct,
  environ_lookup-environ_remove, environ_remove-IsDistinct, environ_lookup-inherit,
  inherit-IsDistinct, same-other, if_same,
}

-- `environ_insert` on distinct names gives the name the value and leaves every other name as it was; the
-- names stay distinct.
pub environ_insert_lem :
    (es : List Entry) (n : Bytes) (v : Value)
    → IsDistinct es
    → IsDistinct (environ_insert es n v)
      × ((m : Bytes)
          → environ_lookup (environ_insert es n v) m
            ≡ (if same n m then some v else environ_lookup es m))
environ_insert_lem es n v h =
    (environ_insert-IsDistinct es n v h, λ m. environ_lookup-environ_insert es n m v)

-- `environ_remove` on distinct names takes the value of the name away and leaves every other name as it was;
-- the names stay distinct.
pub environ_remove_lem :
    (es : List Entry) (n : Bytes)
    → IsDistinct es
    → IsDistinct (environ_remove es n)
      × ((m : Bytes)
          → environ_lookup (environ_remove es n) m
            ≡ (if same n m then none else environ_lookup es m))
environ_remove_lem es n h =
    (environ_remove-IsDistinct es n h, λ m. environ_lookup-environ_remove es n m h)

-- The directory of an environment, if it has one, is open.
abbrev pub IsOpen : Option Handle → Counts → Type 0
IsOpen none counts = Unit {0}
IsOpen (some h) counts = 0 < counts h.address

-- One more reference to the directory, counted in eight bits.
abbrev pub one_more : Option Handle → Counts → Counts
one_more none counts = counts
one_more (some h) counts = λ a. if a == h.address then (counts a + 1) % 2 ^ 8 else counts a

abbrev pub one_less : Option Handle → Counts → Counts
one_less none counts = counts
one_less (some h) counts = λ a. if a == h.address then counts a - 1 else counts a

retain_directory-IsOpen :
    (o : Option Handle) (counts : Counts)
    → IsOpen o counts
    → retain_directory o counts ≡ done (one_more o counts)
retain_directory-IsOpen none counts h = refl
retain_directory-IsOpen (some d) counts h =
    let counted : (counts d.address == 0) ≡ false = ground (arith, h) in rw counted refl

close_directory-IsOpen :
    (o : Option Handle) (counts : Counts)
    → IsOpen o counts
    → close_directory o counts ≡ done (one_less o counts)
close_directory-IsOpen none counts h = refl
close_directory-IsOpen (some d) counts h =
    let counted : (counts d.address == 0) ≡ false = ground (arith, h) in rw counted refl

-- A child of an environment whose directory is open: it has the parent's variables but those of the names that
-- are not inherited, the parent's device, its directory with one more reference, and no loader.
pub environ_create_lem :
    (parent : Environ) (counts : Counts)
    → IsDistinct parent.entries
    → IsOpen parent.directory counts
    → (child : Environ) × (environ_create (some parent) counts
        ≡ done (child, one_more parent.directory counts))
      × IsDistinct child.entries
      × ((m : Bytes)
          → environ_lookup child.entries m ≡ (
              if is_one_of no_inherit_environ_names m
              then none
              else environ_lookup parent.entries m))
      × (child.device ≡ parent.device)
      × (child.directory ≡ parent.directory)
      × (child.loader ≡ none)
unfolding environ_create
environ_create_lem parent counts h o = (
  _,
  rw (retain_directory-IsOpen parent.directory counts o) refl,
  inherit-IsDistinct parent.entries h,
  environ_lookup-inherit parent.entries,
  refl,
  refl,
  refl,
)

-- The label or UUID of a mount as a variable: without a mount there is none, and where the mount has none, the
-- variable keeps the value `old`.
abbrev pub mounted : (Mount → Option Bytes) → Option Mount → Option Value → Option Value
mounted field none old = none
mounted field (some m) old = or_else (Option.map string (field m)) old

-- The variables after environ_set_device.
abbrev pub device_variable : Device → List Entry → Bytes → Option Value
device_variable d es m =
    if same device_uuid_name m
    then mounted (λ x. x.uuid) d.mount (environ_lookup es m)
    else if same device_label_name m
    then mounted (λ x. x.label) d.mount (environ_lookup es m)
    else if same device_name m
    then some (string d.name)
    else environ_lookup es m

environ_lookup-set_if :
    (n : Bytes) (o : Option Bytes) (es : List Entry) (m : Bytes)
    → environ_lookup (set_if n o es) m ≡ (
        if same n m
        then or_else (Option.map string o) (environ_lookup es m)
        else environ_lookup es m)
environ_lookup-set_if n none es m = sym (if_same (same n m) (environ_lookup es m))
environ_lookup-set_if n (some s) es m = environ_lookup-environ_insert es n m (string s)

set_if-IsDistinct :
    (n : Bytes) (o : Option Bytes) (es : List Entry) → IsDistinct es → IsDistinct (set_if n o es)
set_if-IsDistinct n none es h = h
set_if-IsDistinct n (some s) es h = environ_insert-IsDistinct es n (string s) h

set_mount-IsDistinct :
    (o : Option Mount) (es : List Entry) → IsDistinct es → IsDistinct (set_mount o es)
set_mount-IsDistinct none es h =
    environ_remove-IsDistinct (environ_remove es device_label_name) device_uuid_name
      (environ_remove-IsDistinct es device_label_name h)
set_mount-IsDistinct (some x) es h =
    set_if-IsDistinct device_uuid_name x.uuid (set_if device_label_name x.label es)
      (set_if-IsDistinct device_label_name x.label es h)

uuid-label : same device_uuid_name device_label_name ≡ false
unfolding same strcmp
uuid-label = refl

uuid-device : same device_uuid_name device_name ≡ false
unfolding same strcmp
uuid-device = refl

label-device : same device_label_name device_name ≡ false
unfolding same strcmp
label-device = refl

environ_lookup-set_mount :
    (o : Option Mount) (es : List Entry) (m : Bytes)
    → IsDistinct es
    → environ_lookup (set_mount o es) m ≡ (
        if same device_uuid_name m
        then mounted (λ x. x.uuid) o (environ_lookup es m)
        else if same device_label_name m
        then mounted (λ x. x.label) o (environ_lookup es m)
        else environ_lookup es m)
environ_lookup-set_mount none es m h =
    let h' = environ_remove-IsDistinct es device_label_name h in
    environ_lookup-environ_remove (environ_remove es device_label_name) device_uuid_name m h'
    ∙ ap (λ o. if same device_uuid_name m then none else o)
        (environ_lookup-environ_remove es device_label_name m h)
environ_lookup-set_mount (some x) es m h =
    let labelled = set_if device_label_name x.label es in
    environ_lookup-set_if device_uuid_name x.uuid labelled m
    ∙ elim (Bool-cases (same device_uuid_name m)) [
      | inl k ↦ rw k (
          ap (or_else (Option.map string x.uuid)) (
            environ_lookup-set_if device_label_name x.label es m
            ∙ rw (same-other device_uuid_name device_label_name m uuid-label k) refl))
      | inr k ↦ rw k (environ_lookup-set_if device_label_name x.label es m)
    ]

-- The variables that are not of the mount are those after the device's name was set.
under :
    (d : Device) (es : List Entry) (m : Bytes)
    → (if same device_uuid_name m
        then mounted
            (λ x. x.uuid)
            d.mount
            (if same device_name m then some (string d.name) else environ_lookup es m)
        else if same device_label_name m
        then mounted
            (λ x. x.label)
            d.mount
            (if same device_name m then some (string d.name) else environ_lookup es m)
        else if same device_name m
        then some (string d.name)
        else environ_lookup es m)
      ≡ device_variable d es m
under d es m = elim (Bool-cases (same device_uuid_name m)) [
  | inl k ↦ rw k (rw (same-other device_uuid_name device_name m uuid-device k) refl)
  | inr k ↦ rw k (elim (Bool-cases (same device_label_name m)) [
    | inl l ↦ rw l (rw (same-other device_label_name device_name m label-device l) refl)
    | inr l ↦ rw l refl
  ])
]

-- `environ_set_device` with a directory that is open: the device is set, the directory is let go of, and
-- "device" has the device's name. "device_label" and "device_uuid" go where the device has no mount, have
-- the values of the mount where it has them, and keep the values that they had where the mount has none.
-- No other variable changes, and the names stay distinct.
pub environ_set_device_lem :
    (env : Environ) (d : Device) (counts : Counts)
    → IsDistinct env.entries
    → IsOpen env.directory counts
    → (env' : Environ) × (environ_set_device env d counts
        ≡ done (env', one_less env.directory counts))
      × IsDistinct env'.entries
      × ((m : Bytes) → environ_lookup env'.entries m ≡ device_variable d env.entries m)
      × (env'.device ≡ some d)
      × (env'.directory ≡ none)
      × (env'.loader ≡ env.loader)
unfolding environ_set_device
environ_set_device_lem env d counts h o =
    let named = environ_insert env.entries device_name (string d.name) in
    let h' = environ_insert-IsDistinct env.entries device_name (string d.name) h in
    (
      _,
      rw (close_directory-IsOpen env.directory counts o) refl,
      set_mount-IsDistinct d.mount named h',
      λ m.
          environ_lookup-set_mount d.mount named m h'
          ∙ rw (environ_lookup-environ_insert env.entries device_name m (string d.name))
              (under d env.entries m),
      refl,
      refl,
      refl,
    )
