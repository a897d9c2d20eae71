-- ===== src/Config.antt =====
-- internal/config/config.go: the inventory of devices.yaml and its validation. A platform is the text
-- of the file.
pub mod Validate
use poligon.Base.{
  List, Option, Text, [], codes, if◌then◌else◌, is_empty, mem, none, some, ◌==◌, ◌∷◌,
}

pub record DeviceSpec : Type 0 where
  pub id : Text
  pub platform : Text
  pub serial : Text
  pub udid : Text
  pub tags : List Text

pub data ConfigError : Type 0 where
  empty_id : ConfigError
  duplicate_id needs_serial needs_udid bad_platform : Text → ConfigError

-- The address that the platform of an entry asks for.
abbrev pub check_platform : DeviceSpec → Option ConfigError
check_platform d =
    if d.platform == codes "android"
    then (if is_empty d.serial then some (needs_serial d.id) else none)
    else if d.platform == codes "ios"
    then (if is_empty d.udid then some (needs_udid d.id) else none)
    else some (bad_platform d.id)

-- The loop of validate, over the ids seen so far.
unfoldable pub validate_from : List Text → List DeviceSpec → Option ConfigError
validate_from seen [] = none
validate_from seen (d ∷ ds) =
    let rest = validate_from (d.id ∷ seen) ds in
    if is_empty d.id
    then some empty_id
    else if mem d.id seen
    then some (duplicate_id d.id)
    else elim (check_platform d) [ some e ↦ some e | none ↦ rest ]

unfoldable pub validate : List DeviceSpec → Option ConfigError
unfolding validate_from
validate ds = validate_from [] ds
