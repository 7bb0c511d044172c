-- ===== src/System/Power/Detection.antt =====
-- What `detect_power_source` of crates/app-powerd-core/src/system/power.rs finds.
use app_powerd.Prelude.{
  ◌≡◌, refl, List, [], ◌∷◌, Bool, true, false, ◌||◌, any, Bool-cases, inl, inr, if◌then◌else◌,
}
use app_powerd.Host.{Host, Trace}
use app_powerd.System.Power.{
  PowerSource, battery, ac, unknown, Supply, mains_online, battery_supply, other_supply,
  scan_supplies, listed_supplies, power_supply, detect_power_source,
}

abbrev pub is_online_mains : Supply → Bool
is_online_mains mains_online = true
is_online_mains _ = false

abbrev pub is_battery : Supply → Bool
is_battery battery_supply = true
is_battery _ = false

-- A mains adapter that is online decides; then a battery.
abbrev pub judged : Bool → List Supply → PowerSource
judged met supplies =
    if any is_online_mains supplies
    then ac
    else if met || any is_battery supplies
    then battery
    else unknown

scan-judged :
    (met : Bool) (supplies : List Supply) → scan_supplies met supplies ≡ judged met supplies
unfolding scan_supplies any
scan-judged true [] = refl
scan-judged false [] = refl
scan-judged true (mains_online ∷ rest) = refl
scan-judged false (mains_online ∷ rest) = refl
scan-judged true (battery_supply ∷ rest) = scan-judged true rest
scan-judged false (battery_supply ∷ rest) = scan-judged true rest
scan-judged true (other_supply ∷ rest) = scan-judged true rest
scan-judged false (other_supply ∷ rest) = scan-judged false rest

-- The order in which the supplies are listed does not matter: the source is the mains exactly when
-- some adapter is online, else the battery when there is one; without the directory it is unknown.
pub detect_power_source-judged :
    (host : Host) (t : Trace)
    → detect_power_source host t ≡ (
        if host.path_exists t power_supply
        then judged false (listed_supplies host t (host.read_dir t power_supply))
        else unknown)
unfolding detect_power_source
detect_power_source-judged host t =
    let same = scan-judged false (listed_supplies host t (host.read_dir t power_supply)) in
    elim (Bool-cases (host.path_exists t power_supply)) [
      | inl there ↦ rw there same
      | inr absent ↦ rw absent refl
    ]
