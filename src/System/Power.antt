-- ===== src/System/Power.antt =====
-- The power source as sysfs tells it: `detect_power_source` and the watch of
-- crates/app-powerd-core/src/system/power.rs.
pub mod Detection
use app_powerd.Prelude.{
  ℕ, ◌≡◌, List, [], ◌∷◌, ◌++◌, Bool, true, false, not, ◌&&◌, Option, none, some, Text, codes,
  text_eq, trim, join, if◌then◌else◌,
}
use app_powerd.Host.{Host, Trace, FileRead, contents, refused}

pub data PowerSource : Type 0 where
  battery ac unknown : PowerSource

abbrev pub source_text : PowerSource → Text
source_text battery = codes "battery"
source_text ac = codes "ac"
source_text unknown = codes "unknown"

abbrev pub power_supply : Text
power_supply = codes "/sys/class/power_supply"

-- What one entry of the directory is.
pub data Supply : Type 0 where
  mains_online battery_supply other_supply : Supply

abbrev read_trimmed : FileRead → Option Text
read_trimmed (contents s) = some (trim s)
read_trimmed (refused e) = none

abbrev reads_as : Text → Option Text → Bool
reads_as want none = false
reads_as want (some s) = text_eq s want

abbrev kind_of : Option Text → Option Text → Supply
kind_of type' online =
    if reads_as (codes "Mains") type'
    then (if reads_as (codes "1") online then mains_online else other_supply)
    else if reads_as (codes "Battery") type'
    then battery_supply
    else other_supply

-- The loop over the entries; `has_battery` is what was met so far.
unfoldable pub scan_supplies : Bool → List Supply → PowerSource
scan_supplies true [] = battery
scan_supplies false [] = unknown
scan_supplies has_battery (mains_online ∷ rest) = ac
scan_supplies has_battery (battery_supply ∷ rest) = scan_supplies true rest
scan_supplies has_battery (other_supply ∷ rest) = scan_supplies has_battery rest

module _ (host : Host) (t : Trace) where
  unfoldable pub supply_of : Text → Supply
  supply_of name =
      let path = join power_supply name in
      kind_of (read_trimmed (host.read_file t (join path (codes "type"))))
        (read_trimmed (host.read_file t (join path (codes "online"))))

  unfoldable pub supplies_of : List Text → List Supply
  unfolding supply_of
  supplies_of [] = []
  supplies_of (name ∷ names) = supply_of name ∷ supplies_of names

  unfoldable pub listed_supplies : Option (List Text) → List Supply
  unfolding supplies_of
  listed_supplies none = []
  listed_supplies (some names) = supplies_of names

  unfoldable pub detect_power_source : PowerSource
  unfolding scan_supplies listed_supplies
  detect_power_source =
      if not (host.path_exists t power_supply)
      then unknown
      else scan_supplies false (listed_supplies (host.read_dir t power_supply))

abbrev pub same_source : PowerSource → PowerSource → Bool
same_source battery battery = true
same_source ac ac = true
same_source unknown unknown = true
same_source _ _ = false

-- What `watch_power_source` sends for the sources that it detects, one after the other: the first,
-- and then each that differs from the last sent.
unfoldable pub watched_from : PowerSource → List PowerSource → List PowerSource
watched_from last [] = []
watched_from last (current ∷ rest) =
    if same_source current last then watched_from last rest else current ∷ watched_from current rest

unfoldable pub watched : List PowerSource → List PowerSource
unfolding watched_from
watched [] = []
watched (first' ∷ rest) = first' ∷ watched_from first' rest
