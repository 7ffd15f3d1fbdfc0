-- ===== src/Devices/Laws.antt =====
-- Registration adds a device to what lookups find, and lets no plain name stand twice.
use kboot.Base.{
  ◌≡◌, refl, ap, List, [], ◌∷◌, ◌++◌, Bool, false, ◌&&◌, not, if◌then◌else◌, Option, none, some,
  inl, inr, ◌⊎◌, Bool-cases,
}
use kboot.Base.Outcome.{done, stop, internal_error}
use kboot.CString.{Bytes}
use kboot.Config.Environ.{Device, same}
use kboot.Devices.{
  Kind, by_name, by_uuid, by_label, split_name, is_empty, device_matches, find_device, lookup_split,
  device_lookup, without_mount, register_after, device_register,
}

abbrev pub or_else : Option Device → Option Device → Option Device
or_else (some d) o = some d
or_else none o = o

-- Whether a name that is looked up is the name of the device.
abbrev names_split : Device → Kind × Bytes → Bool
names_split device (by_name, name) = not (is_empty name) && same device.name name
names_split device (by_uuid, name) = false
names_split device (by_label, name) = false

abbrev pub names : Device → Bytes → Bool
names device name = names_split device (split_name name)

find_device-append :
    (kind : Kind) (name : Bytes) (devices : List Device) (device : Device)
    → find_device kind name (devices ++ (device ∷ []))
      ≡ or_else
          (find_device kind name devices)
          (if device_matches kind name device then some device else none)
unfolding find_device
find_device-append kind name [] device = refl
find_device-append kind name (d ∷ devices) device = elim (Bool-cases (device_matches kind name d)) [
  | inl here ↦ rw here refl
  | inr there ↦ rw there (find_device-append kind name devices device)
]

lookup-append :
    (devices : List Device) (device : Device) (split : Kind × Bytes)
    → lookup_split (devices ++ (without_mount device ∷ [])) split
      ≡ or_else
          (lookup_split devices split)
          (if names_split device split then some (without_mount device) else none)
lookup-append devices device (by_name, name) = elim (Bool-cases (is_empty name)) [
  | inl empty ↦ rw empty refl
  | inr some_name ↦ rw some_name (find_device-append by_name name devices (without_mount device))
]
lookup-append devices device (by_uuid, name) = elim (Bool-cases (is_empty name)) [
  | inl empty ↦ rw empty refl
  | inr some_name ↦ rw some_name (find_device-append by_uuid name devices (without_mount device))
]
lookup-append devices device (by_label, name) = elim (Bool-cases (is_empty name)) [
  | inl empty ↦ rw empty refl
  | inr some_name ↦ rw some_name (find_device-append by_label name devices (without_mount device))
]

-- What becomes of a registration, with what the device's name finds before it.
abbrev Registration : List Device → Device → Option Device → Type 0
Registration devices device (some other) = device_register devices device ≡ stop internal_error
Registration devices device none =
    (devices' : List Device) × (device_register devices device ≡ done devices')
    × ((name : Bytes)
        → device_lookup devices' name
          ≡ or_else (device_lookup devices name)
              (if names device name then some (without_mount device) else none))

registration :
    (devices : List Device) (device : Device) (o : Option Device)
    → device_lookup devices device.name ≡ o
    → Registration devices device o
unfolding device_register device_lookup
registration devices device (some other) e = ap (register_after devices device) e
registration devices device none e = (
  devices ++ (without_mount device ∷ []),
  ap (register_after devices device) e,
  λ name. lookup-append devices device (split_name name),
)

-- `device_register` stops at the internal error if a lookup of the device's name finds a device, whichever that
-- is. Otherwise every lookup finds what it found before, and one that found nothing finds the new device, without
-- a mount, exactly if it asks for its name.
pub device_register_lem :
    (devices : List Device) (device : Device)
    → ((other : Device) × (device_lookup devices device.name ≡ some other)
        × (device_register devices device ≡ stop internal_error))
      ⊎ ((device_lookup devices device.name ≡ none)
          × ((devices' : List Device) × (device_register devices device ≡ done devices')
              × ((name : Bytes)
                  → device_lookup devices' name
                    ≡ or_else
                        (device_lookup devices name)
                        (if names device name then some (without_mount device) else none))))
device_register_lem devices device = by_outcome (device_lookup devices device.name) refl
  where
    by_outcome :
        (o : Option Device)
        → device_lookup devices device.name ≡ o
        → ((other : Device) × (device_lookup devices device.name ≡ some other)
            × (device_register devices device ≡ stop internal_error))
          ⊎ ((device_lookup devices device.name ≡ none) × Registration devices device none)
    by_outcome (some other) e = inl (other, e, registration devices device (some other) e)
    by_outcome none e = inr (e, registration devices device none e)
