-- ===== src/Devices/Tests.antt =====
-- Lookups of two devices, and an instance of the theorem.
use kboot.Base.{ℕ, ◌≡◌, refl, List, [], ◌∷◌, none, some, if◌then◌else◌, ◌⊎◌}
use kboot.Base.Outcome.{done, stop, internal_error}
use kboot.CString.{Bytes, strncmp, strcmp}
use kboot.Config.Environ.{Device, same}
use kboot.Devices.{has_prefix, find_device, device_lookup, device_register, without_mount}
use kboot.Devices.Laws.{or_else, names, device_register_lem}

abbrev first_disk : Device
first_disk = record {
  address = 1;
  name = b'h' ∷ b'd' ∷ b'0' ∷ [];
  mount = some (record { label = some (b'b' ∷ b'o' ∷ []); uuid = none });
}

abbrev second_disk : Device
second_disk = record { address = 2; name = b'h' ∷ b'd' ∷ b'1' ∷ []; mount = none }

-- Unfolding this unfolds the code.
devices_code : ℕ
unfolding has_prefix find_device device_lookup device_register same strncmp strcmp
devices_code = 0

found_by_label :
    device_lookup
      (second_disk ∷ first_disk ∷ [])
      (b'l' ∷ b'a' ∷ b'b' ∷ b'e' ∷ b'l' ∷ b':' ∷ b'b' ∷ b'o' ∷ [])
    ≡ some first_disk
unfolding devices_code
found_by_label = refl

registered_twice : device_register (first_disk ∷ []) first_disk ≡ stop internal_error
unfolding devices_code
registered_twice = refl

device_register_lem_example :
    ((other : Device) × (device_lookup (first_disk ∷ []) second_disk.name ≡ some other)
      × (device_register (first_disk ∷ []) second_disk ≡ stop internal_error))
    ⊎ ((device_lookup (first_disk ∷ []) second_disk.name ≡ none)
        × ((devices' : List Device) × (device_register (first_disk ∷ []) second_disk
              ≡ done devices')
            × ((name : Bytes)
                → device_lookup devices' name
                  ≡ or_else
                      (device_lookup (first_disk ∷ []) name)
                      (if names second_disk name then some (without_mount second_disk) else none))))
device_register_lem_example = device_register_lem (first_disk ∷ []) second_disk
