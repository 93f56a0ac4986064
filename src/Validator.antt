-- ===== src/Validator.antt =====
-- The default validator (plugins/default-validator/default-validator.go), with the annotations
-- that it reads (pkg/plugin/annotations.go) and the plugins of its request (pkg/api/validate.go).
pub mod Required
pub mod Permits
pub mod Accepts
mod Tests
use Prim.Native.String.{◌++◌ as str_append}
use nri.Base.{
  ℕ, String, code, Bool, true, false, not, ◌&&◌, ◌||◌, Option, none, some, List, [], ◌∷◌, ◌++◌,
  keep, length, nat_eq, nat_beq, ◌==◌, string_eq, if◌then◌else◌,
}
use nri.Base.Map.{Map, lookup, insert, has_key}
use nri.Api.PluginName.{full_name}
use nri.Api.Owners.{OwningPlugins}
use nri.Api.Owners.Lookups.{hooks_owner, seccomp_policy_owner, namespace_owners, sysctl_owner}
use nri.Adaptation.State.{Adjustment}
use nri.Adaptation.Relay.{ValidateRequest}

pub record DefaultValidatorConfig : Type 0 where
  pub enable : Bool
  pub reject_oci_hook_adjustment : Bool
  pub reject_runtime_default_seccomp_adjustment : Bool
  pub reject_unconfined_seccomp_adjustment : Bool
  pub reject_custom_seccomp_adjustment : Bool
  pub reject_namespace_adjustment : Bool
  pub reject_sysctl_adjustment : Bool
  pub required_plugins : List String
  pub tolerate_missing_annotation : String

-- `SetConfig`, which may be given nil. `NewDefaultValidator` starts with the configuration it is given.
unfoldable pub set_config :
    Option DefaultValidatorConfig → DefaultValidatorConfig → DefaultValidatorConfig
set_config none current = current
set_config (some new) current = new

-- `SecurityProfile.ProfileType`
abbrev pub runtime_default : ℕ
runtime_default = 0

abbrev pub unconfined : ℕ
unconfined = 1

abbrev pub localhost : ℕ
localhost = 2

-- The request of the adaptation, with what else the validator reads of it: the pod's annotations, the
-- container's name and the type of the container's seccomp profile, if it has one.
pub record Validating : Type 0 where
  pub request : ValidateRequest
  pub annotations : Map String String
  pub name : String
  pub profile : Option ℕ

abbrev pub owners_of : Validating → OwningPlugins
owners_of v = v.request.owners

abbrev pub id_of : Validating → String
id_of v = v.request.container.id

pub data ValidationError : Type 0 where
  -- whether several plugins injected hooks, and their names
  hook_injection : Bool → String → ValidationError
  -- the owner of the seccomp policy
  unconfined_seccomp runtime_default_seccomp custom_seccomp : String → ValidationError
  -- the owners by namespace
  namespace_adjustment : Map String String → ValidationError
  -- the annotation's key and value
  invalid_annotation : String → String → ValidationError
  -- the required plugins that are not present
  missing_plugins : List String → ValidationError
  -- the owners
  sysctl_adjustment : List String → ValidationError

-- `strings.Contains(s, ",")`
unfoldable pub contains_comma : String → Bool
contains_comma String.[] = false
contains_comma (String.◌∷◌ c s) = let rest = contains_comma s in code c == b',' || rest

unfoldable pub validate_oci_hooks : DefaultValidatorConfig → Validating → Option ValidationError
unfolding contains_comma
validate_oci_hooks cfg v = elim v.request.adjust [
  | none ↦ none
  | some a ↦
      if not cfg.reject_oci_hook_adjustment
      then none
      else elim (hooks_owner (id_of v) (owners_of v)) [
        | none ↦ none
        | some owners ↦ some (hook_injection (contains_comma owners) owners)
      ]
]

-- The error for an owner of the policy, by the container's profile.
unfoldable pub seccomp_error : DefaultValidatorConfig → Option ℕ → String → Option ValidationError
seccomp_error cfg none owner =
    if cfg.reject_unconfined_seccomp_adjustment then some (unconfined_seccomp owner) else none
seccomp_error cfg (some type) owner =
    if nat_beq type unconfined
    then if cfg.reject_unconfined_seccomp_adjustment then some (unconfined_seccomp owner) else none
    else if nat_beq type runtime_default
    then if cfg.reject_runtime_default_seccomp_adjustment
      then some (runtime_default_seccomp owner)
      else none
    else if nat_beq type localhost
    then if cfg.reject_custom_seccomp_adjustment then some (custom_seccomp owner) else none
    else none

unfoldable pub validate_seccomp_policy :
    DefaultValidatorConfig → Validating → Option ValidationError
unfolding seccomp_error
validate_seccomp_policy cfg v = elim v.request.adjust [
  | none ↦ none
  | some a ↦ elim (seccomp_policy_owner (id_of v) (owners_of v)) [
    | none ↦ none
    | some owner ↦ seccomp_error cfg v.profile owner
  ]
]

unfoldable pub validate_namespaces : DefaultValidatorConfig → Validating → Option ValidationError
validate_namespaces cfg v = elim v.request.adjust [
  | none ↦ none
  | some a ↦
      if not cfg.reject_namespace_adjustment
      then none
      else elim (namespace_owners (id_of v) (owners_of v)) [
        | none ↦ none
        | some owners ↦ some (namespace_adjustment owners)
      ]
]

-- The owners of the entries of the adjustment's map, which may be nil; the adjustment that the
-- adaptation sends has a `Linux`.
unfoldable pub owners_of_sysctls : String → OwningPlugins → Map String String → List String
owners_of_sysctls id o [] = []
owners_of_sysctls id o ((key, value) ∷ rest) =
    let others = owners_of_sysctls id o rest in
    elim (sysctl_owner id key o) [ none ↦ others | some owner ↦ owner ∷ others ]

abbrev pub entries_of : Option (Map String String) → Map String String
entries_of none = []
entries_of (some m) = m

unfoldable pub validate_sysctl : DefaultValidatorConfig → Validating → Option ValidationError
unfolding owners_of_sysctls
validate_sysctl cfg v = elim v.request.adjust [
  | none ↦ none
  | some a ↦
      if not cfg.reject_sysctl_adjustment
      then none
      else elim (owners_of_sysctls (id_of v) (owners_of v) (entries_of a.linux.sysctl)) [
        | [] ↦ none
        | owner ∷ owners ↦ some (sysctl_adjustment (owner ∷ owners))
      ]
]

-- The first of the keys that the annotations have.
unfoldable pub first_annotation : Map String String → List String → Option String
first_annotation annotations [] = none
first_annotation annotations (k ∷ keys) =
    let rest = first_annotation annotations keys in
    elim (lookup k annotations) [ none ↦ rest | some value ↦ some value ]

unfoldable pub get_effective_annotation : Map String String → String → String → Option String
unfolding first_annotation
get_effective_annotation annotations key container =
    if nat_beq (length annotations) 0
    then none
    else first_annotation annotations
        (str_append key (str_append "/container." container) ∷ str_append key "/pod" ∷ key ∷ [])

-- `strconv.ParseBool`
unfoldable pub parse_bool : String → Option Bool
parse_bool s =
    if s == "1" || (s == "t" || (s == "T" || (s == "true" || (s == "TRUE" || s == "True"))))
    then some true
    else if s == "0" || (s == "f" || (s == "F" || (s == "false" || (s == "FALSE" || s == "False"))))
    then some false
    else none

abbrev pub required_plugins_annotation : String
required_plugins_annotation = "required-plugins.noderesource.dev"

-- Both names of each plugin, which the request has with its index.
unfoldable pub get_plugin_map :
    List (String × String) → Map String (String × String) → Map String (String × String)
get_plugin_map [] m = m
get_plugin_map ((name, index) ∷ rest) m =
    get_plugin_map rest (insert (full_name index name) (name, index) (insert name (name, "") m))

-- What the toleration annotation says.
pub data Toleration : Type 0 where
  tolerated not_tolerated : Toleration
  invalid_toleration : String → Toleration

unfoldable pub toleration : DefaultValidatorConfig → Validating → Toleration
unfolding get_effective_annotation parse_bool
toleration cfg v =
    if cfg.tolerate_missing_annotation == ""
    then not_tolerated
    else elim (get_effective_annotation v.annotations cfg.tolerate_missing_annotation v.name) [
      | none ↦ not_tolerated
      | some value ↦ elim (parse_bool value) [
        | none ↦ invalid_toleration value
        | some tolerate ↦ if tolerate then tolerated else not_tolerated
      ]
    ]

unfoldable pub missing_among : List String → Map String (String × String) → List String
missing_among required plugins = keep (λ r. not (has_key r plugins)) required

unfoldable pub check_present : List String → List (String × String) → Option ValidationError
unfolding missing_among get_plugin_map
check_present required plugins = elim (missing_among required (get_plugin_map plugins [])) [
  | [] ↦ none
  | r ∷ missing ↦ some (missing_plugins (r ∷ missing))
]

-- `yaml.Unmarshal` into a list of strings, or its error.
module _ (unmarshal : String → Option (List String)) where
  unfoldable pub check_required : DefaultValidatorConfig → Validating → Option ValidationError
  unfolding get_effective_annotation check_present
  check_required cfg v =
      elim (get_effective_annotation v.annotations required_plugins_annotation v.name) [
        | none ↦ check_present cfg.required_plugins v.request.plugins
        | some value ↦ elim (unmarshal value) [
          | none ↦ some (invalid_annotation required_plugins_annotation value)
          | some annotated ↦ check_present (cfg.required_plugins ++ annotated) v.request.plugins
        ]
      ]

  unfoldable pub validate_required_plugins :
      DefaultValidatorConfig → Validating → Option ValidationError
  unfolding toleration check_required
  validate_required_plugins cfg v = elim (toleration cfg v) [
    | tolerated ↦ none
    | not_tolerated ↦ check_required cfg v
    | invalid_toleration value ↦ some (invalid_annotation cfg.tolerate_missing_annotation value)
  ]

  abbrev pub first_error : List (Option ValidationError) → Option ValidationError
  first_error [] = none
  first_error (none ∷ rest) = first_error rest
  first_error (some e ∷ rest) = some e

  -- `ValidateContainerAdjustment`: the error to reject with, if any.
  unfoldable pub validate_container_adjustment :
      DefaultValidatorConfig → Validating → Option ValidationError
  unfolding validate_oci_hooks validate_seccomp_policy validate_namespaces validate_required_plugins
      validate_sysctl
  validate_container_adjustment cfg v = first_error (
      validate_oci_hooks cfg v
      ∷ validate_seccomp_policy cfg v
      ∷ validate_namespaces cfg v
      ∷ validate_required_plugins cfg v
      ∷ validate_sysctl cfg v
      ∷ [])
