-- ===== src/Devices.antt =====
-- The list of devices of source/device.c: lookups by name, UUID and label, and registration. Names are bytes
-- without their terminator.
pub mod Laws
mod Tests
use kboot.Base.{
  ℕ, zero, suc, List, [], ◌∷◌, ◌++◌, Bool, true, false, ◌==◌, ◌&&◌, not, if◌then◌else◌, Option,
  none, some,
}
use kboot.Base.Lists.{drop}
use kboot.Base.Outcome.{Outcome, done, stop, internal_error}
use kboot.CString.{Bytes, strncmp}
use kboot.Config.Environ.{Device, Mount, same, is_zero}

-- What a name asks for: the two flags of device_lookup.
pub data Kind : Type 0 where
  by_uuid by_label by_name : Kind

abbrev pub uuid_prefix : Bytes
uuid_prefix = b'u' ∷ b'u' ∷ b'i' ∷ b'd' ∷ b':' ∷ []

abbrev pub label_prefix : Bytes
label_prefix = b'l' ∷ b'a' ∷ b'b' ∷ b'e' ∷ b'l' ∷ b':' ∷ []

unfoldable pub has_prefix : Bytes → Bytes → ℕ → Bool
has_prefix name prefix n = is_zero (strncmp (name ++ (0 ∷ [])) (prefix ++ (0 ∷ [])) n)

-- The kind, and what follows the prefix.
abbrev pub split_name : Bytes → Kind × Bytes
split_name name =
    if has_prefix name uuid_prefix 5
    then (by_uuid, drop 5 name)
    else if has_prefix name label_prefix 6
    then (by_label, drop 6 name)
    else (by_name, name)

abbrev pub is_empty : Bytes → Bool
is_empty [] = true
is_empty (b ∷ s) = b == 0

-- A string of a mount that is neither NULL nor empty, and is the one asked for.
abbrev pub has_text : Option Bytes → Bytes → Bool
has_text none name = false
has_text (some s) name = not (is_empty s) && same s name

abbrev pub mount_matches : Kind → Option Mount → Bytes → Bool
mount_matches kind none name = false
mount_matches by_uuid (some mount) name = has_text mount.uuid name
mount_matches by_label (some mount) name = has_text mount.label name
mount_matches by_name (some mount) name = false

abbrev pub device_matches : Kind → Bytes → Device → Bool
device_matches by_name name device = same device.name name
device_matches by_uuid name device = mount_matches by_uuid device.mount name
device_matches by_label name device = mount_matches by_label device.mount name

unfoldable pub find_device : Kind → Bytes → List Device → Option Device
find_device kind name [] = none
find_device kind name (device ∷ devices) =
    let rest = find_device kind name devices in
    if device_matches kind name device then some device else rest

abbrev pub lookup_split : List Device → Kind × Bytes → Option Device
lookup_split devices (kind, name) = if is_empty name then none else find_device kind name devices

unfoldable pub device_lookup : List Device → Bytes → Option Device
device_lookup devices name = lookup_split devices (split_name name)

abbrev pub without_mount : Device → Device
without_mount device = record device { mount = none }

abbrev pub register_after : List Device → Device → Option Device → Outcome (List Device)
register_after devices device (some other) = stop internal_error
register_after devices device none = done (devices ++ (without_mount device ∷ []))

unfoldable pub device_register : List Device → Device → Outcome (List Device)
device_register devices device = register_after devices device (device_lookup devices device.name)
