-- ===== src/Utils/Config/Files.antt =====
-- The rest of src/utils/config.ts: where the configurations are, and what is read of them. The files,
-- `objects.mergeDeep` and lisk-validator are parameters.
use lisk_migrator.Common.{
  ◌++◌, Bool, true, false, Option, none, some, Text, codes, Result, ok, err, ◌>>=◌,
}
use lisk_migrator.Utils.Config.{ConfigV3, ConfigV4, truthy_text, get_network_by_network_id}
use lisk_migrator.Utils.Path.{System, join, normalize, resolve_absolute_path}

pub record ConfigFiles : Type 0 where
  pub read_json : Text → Result ConfigV3
  pub read_default : Text → Result ConfigV4
  -- `objects.mergeDeep({}, first, second)`
  pub merge_deep : ConfigV3 → ConfigV3 → ConfigV3
  -- `objects.mergeDeep({}, applicationConfigSchema.default, config)`
  pub with_defaults : ConfigV4 → ConfigV4
  pub validate : ConfigV4 → Result (Unit {0})

-- `{}`
abbrev pub empty_config : ConfigV3
empty_config = record {
  root_path = none;
  logger = none;
  transaction_pool = none;
  rpc_mode = none;
  network = none;
}

module _ (system : System) (files : ConfigFiles) where
  abbrev pub read_custom : Option Text → Result ConfigV3
  read_custom custom_config_path = elim (truthy_text custom_config_path) [
    | none ↦ ok empty_config
    | some path ↦ files.read_json (resolve_absolute_path system path)
  ]

  unfoldable pub get_config : Text → Text → Option Text → Result ConfigV3
  unfolding join resolve_absolute_path get_network_by_network_id
  get_config core_path network_id custom_config_path = do
    network ← get_network_by_network_id network_id
    data_dir_config ←
        files.read_json (join core_path (codes "config/" ++ network ++ codes "/config.json"))
    custom_config ← read_custom custom_config_path
    ok (files.merge_deep data_dir_config custom_config)

-- With the directory of the compiled file, which `__dirname` is.
unfoldable pub resolve_config_path_by_network_id : Text → Text → Result Text
unfolding normalize get_network_by_network_id
resolve_config_path_by_network_id dirname network_identifier = do
  network ← get_network_by_network_id network_identifier
  ok (normalize (dirname ++ codes "/../../config/" ++ network ++ codes "/config.json"))

-- Any error of the validator is caught.
unfoldable pub validate_config : ConfigFiles → ConfigV4 → Bool
validate_config files config = elim (files.validate (files.with_defaults config)) [
  | ok done ↦ true
  | err e ↦ false
]
