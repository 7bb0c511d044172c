-- ===== src/Config/Loader.antt =====
-- Reading the configuration: `load_config` and `load_config_or_default` of
-- crates/app-powerd-core/src/config/loader.rs, and `profiles_requiring_cpu_control` of config/mod.rs.
-- The YAML library is a parameter: it reads a configuration from a text, or refuses it.
use app_powerd.Prelude.{
  List, [], ◌∷◌, ◌||◌, retain, Option, none, some, Text, ltb, ◌==◌, Bool, true, false, is_some,
  keys, if◌then◌else◌,
}
use app_powerd.Host.{Host, Trace, contents, refused, IoError}
use app_powerd.Config.{Config, default_config}
use app_powerd.Config.Validation
use app_powerd.Config.Validation.{Invalid, Validated, validate}

-- `validation_error` covers the source's `Validation` and `UnknownProfile`.
pub data ConfigError : Type 0 where
  config_not_found : Text → ConfigError
  parse_error : ConfigError
  validation_error : Invalid → ConfigError
  io_failed : IoError → ConfigError

pub data ConfigRead : Type 0 where
  ok : Config → ConfigRead
  err : ConfigError → ConfigRead

unfoldable pub checked : Config → Validated → ConfigRead
checked config Validation.ok = ok config
checked config (Validation.err e) = err (validation_error e)

module _ (from_yaml : Text → Option Config) where
  unfoldable pub parse_config : Text → ConfigRead
  unfolding checked
  parse_config content = elim (from_yaml content) [
    | none ↦ err parse_error
    | some config ↦ checked config (validate config)
  ]

  unfoldable pub load_config : Host → Trace → Text → ConfigRead
  unfolding parse_config
  load_config host t path =
      if host.path_exists t path
      then elim (host.read_file t path) [
        | refused e ↦ err (io_failed e)
        | contents content ↦ parse_config content
      ]
      else err (config_not_found path)

  unfoldable pub load_config_or_default : Host → Trace → Text → Config
  unfolding load_config
  load_config_or_default host t path = elim (load_config host t path) [
    | ok config ↦ config
    | err e ↦ default_config
  ]

-- `sort` of names: texts by their code points, as UTF-8 orders them.
unfoldable pub text_le : Text → Text → Bool
text_le [] t = true
text_le (c ∷ s) [] = false
text_le (c ∷ s) (d ∷ t) = let rest = text_le s t in if c == d then rest else ltb c d

unfoldable pub insert_sorted : Text → List Text → List Text
unfolding text_le
insert_sorted s [] = s ∷ []
insert_sorted s (t ∷ ts) = if text_le s t then s ∷ t ∷ ts else t ∷ insert_sorted s ts

unfoldable pub sort : List Text → List Text
unfolding insert_sorted
sort [] = []
sort (s ∷ ss) = insert_sorted s (sort ss)

unfoldable pub profiles_requiring_cpu_control : Config → List Text
unfolding sort
profiles_requiring_cpu_control c =
    sort (keys (retain (λ p. is_some p.1.cpu_weight || is_some p.1.cpu_quota) c.profiles))
