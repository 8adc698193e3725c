-- ===== src/Config/Load.antt =====
-- `LoadConfig`: reading the file and decoding YAML are parameters.
pub mod Laws
use capo_shell_mcp.Prelude.{
  ℕ, ℤ, pos, String, ◌⊕◌, ◌==◌, Bool, true, false, Option, none, some, List, [], ◌∷◌, Map, insert,
  Result, ok, err, wrap, no_kubeconfigs, entry_not_object, path_not_string, ◌>>=◌, if◌then◌else◌,
}
use capo_shell_mcp.Action.{noted}
use capo_shell_mcp.Config.Value.{
  Value, null, text, object, array, Values, nil, cons, Fields, end, field, get, as_text, as_object,
  as_array, to_int,
}
use capo_shell_mcp.Config.Env.{expand_env}

pub record KubeconfigTransforms : Type 0 where
  pub clusters : String
  pub contexts : String
  pub users : String

pub record KubeconfigSource : Type 0 where
  pub name : String
  pub path : String
  pub contexts : List String
  pub sshuttle_host : String

pub record CacheConfig : Type 0 where
  pub cluster_list_ttl_seconds : ℤ
  pub kubeconfig_ttl_seconds : ℤ

pub record AppConfig : Type 0 where
  pub kubeconfigs : Map KubeconfigSource
  pub transforms : Option KubeconfigTransforms
  pub custom_fields : Map String
  pub sshuttle_host : String
  pub cache : CacheConfig

abbrev pub default_cluster_list_ttl_seconds : ℤ
default_cluster_list_ttl_seconds = pos 300

abbrev pub default_kubeconfig_ttl_seconds : ℤ
default_kubeconfig_ttl_seconds = pos 3600

abbrev pub or_else {ℓ} : {A : Type ℓ} → A → Option A → A
or_else d none = d
or_else d (some a) = a

-- A transform that is not a text is "".
abbrev found_transforms :
    Option String → Option String → Option String → Option KubeconfigTransforms
found_transforms none none none = none
found_transforms a b c =
    some (record { clusters = or_else "" a; contexts = or_else "" b; users = or_else "" c })

unfoldable pub parse_transforms : Value → Option KubeconfigTransforms
parse_transforms raw = elim (as_object raw) [
  | none ↦ none
  | some obj ↦
      found_transforms (as_text (get obj "clusters")) (as_text (get obj "contexts"))
        (as_text (get obj "users"))
]

abbrev cons_text : Option String → List String → List String
cons_text none l = l
cons_text (some s) l = s ∷ l

texts : Values → List String
texts nil = []
texts (cons v vs) = cons_text (as_text v) (texts vs)

-- The empty list stands for nil too.
unfoldable pub parse_contexts : Value → List String
unfolding texts
parse_contexts raw = elim (as_array raw) [ none ↦ [] | some list ↦ texts list ]

abbrev insert_text : String → Option String → Map String → Map String
insert_text k none m = m
insert_text k (some s) m = insert k s m

text_fields : Fields → Map String
text_fields end = []
text_fields (field k v fs) = insert_text k (as_text v) (text_fields fs)

unfoldable pub parse_custom_fields : Value → Map String
unfolding text_fields
parse_custom_fields raw = elim (as_object raw) [ none ↦ [] | some obj ↦ text_fields obj ]

-- One step down a path of objects.
abbrev below : Option Fields → String → Option Fields
below none key = none
below (some fs) key = as_object (get fs key)

abbrev text_below : Option Fields → String → Option String
text_below none key = none
text_below (some fs) key = as_text (get fs key)

module _ (getenv : String → String) where
  abbrev expanded : Option String → String
  expanded none = ""
  expanded (some host) = expand_env getenv host

  unfoldable pub read_sshuttle_host : Fields → String
  read_sshuttle_host raw = expanded (
      text_below (below (below (below (some raw) "plugins") "api-endpoint-proxy") "sshuttle")
        "host")

  abbrev source_of : String → Fields → String → KubeconfigSource
  source_of name entry path = record {
    name = name;
    path = expand_env getenv path;
    contexts = parse_contexts (get entry "contexts");
    sshuttle_host = read_sshuttle_host entry;
  }

  unfoldable pub parse_source : String → Value → Result KubeconfigSource
  parse_source name v = elim (as_object v) [
    | none ↦ err (entry_not_object name)
    | some entry ↦ elim (as_text (get entry "path")) [
      | none ↦ err (path_not_string name)
      | some path ↦ ok (source_of name entry path)
    ]
  ]

  -- The loop over `rawKubeconfigs`.
  unfoldable pub parse_sources : Map KubeconfigSource → Fields → Result (Map KubeconfigSource)
  parse_sources m end = ok m
  parse_sources m (field name v fs) = do
    source ← parse_source name v
    parse_sources (insert name source m) fs

  unfoldable pub parse_kubeconfigs : Value → Result (Map KubeconfigSource)
  unfolding parse_sources parse_source
  parse_kubeconfigs raw = elim (as_object raw) [
    | none ↦ err no_kubeconfigs
    | some end ↦ err no_kubeconfigs
    | some (field name v fs) ↦ parse_sources [] (field name v fs)
  ]

  unfoldable pub parse_cache : Value → CacheConfig
  parse_cache raw = elim (as_object raw) [
    | none ↦ record {
      cluster_list_ttl_seconds = default_cluster_list_ttl_seconds;
      kubeconfig_ttl_seconds = default_kubeconfig_ttl_seconds;
    }
    | some obj ↦ record {
      cluster_list_ttl_seconds =
          or_else default_cluster_list_ttl_seconds (to_int (get obj "cluster_list_ttl"));
      kubeconfig_ttl_seconds =
          or_else default_kubeconfig_ttl_seconds (to_int (get obj "kubeconfig_ttl"));
    }
  ]

  abbrev pub app_config : Fields → Map KubeconfigSource → AppConfig
  app_config raw kubeconfigs = record {
    kubeconfigs = kubeconfigs;
    transforms = parse_transforms (get raw "transforms");
    custom_fields = parse_custom_fields (get raw "custom_fields");
    sshuttle_host = read_sshuttle_host raw;
    cache = parse_cache (get raw "cache");
  }

  -- `LoadConfig` after decoding.
  unfoldable pub config_of : Fields → Result AppConfig
  config_of raw = do
    kubeconfigs ← parse_kubeconfigs (get raw "kubeconfigs")
    ok (app_config raw kubeconfigs)

  module _ (read_file : String → Result String) (unmarshal : String → Result Fields) where
    unfoldable pub load_config : String → Result AppConfig
    load_config path = do
      content ← noted ("config: reading " ⊕ path) (read_file path)
      raw ← noted ("config: parsing " ⊕ path) (unmarshal content)
      config_of raw

  -- `configPath`, for the result of `os.UserHomeDir`; the path below it is the one on Unix.
  unfoldable pub config_path : Result String → Result String
  config_path home_dir =
      if getenv "CAPI_SHELL_MCP_CONFIG" == ""
      then (elim home_dir [
        | ok home ↦ ok (home ⊕ "/.config/capi-shell/config.yaml")
        | err e ↦ err (wrap "config: resolving home directory" e)
      ])
      else ok (getenv "CAPI_SHELL_MCP_CONFIG")

  -- `Load`
  unfoldable pub load :
      (String → Result String) → (String → Result Fields) → Result String → Result AppConfig
  unfolding config_path load_config
  load read_file unmarshal home_dir = do
    path ← config_path home_dir
    load_config read_file unmarshal path
