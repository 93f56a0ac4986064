-- ===== src/Validator/Tests.antt =====
-- The theorem about the default validator at a strict configuration.
use nri.Base.{String, ◌≡◌, refl, ◌↔◌, true, Option, none, some, List, [], ◌∷◌, string_eq, keep}
use nri.Base.Map.{insert, lookup, has_key}
use nri.Api.Types.{Container}
use nri.Api.Owners.{new_owning_plugins, owners_for, simple_owner, compound_owner_map}
use nri.Api.Owners.Lookups.{hooks_owner, seccomp_policy_owner, namespace_owners}
use nri.Adaptation.State.{empty_adjustment}
use nri.Validator.{
  DefaultValidatorConfig, Validating, unconfined, validate_container_adjustment, get_plugin_map,
  validate_oci_hooks, validate_seccomp_policy, validate_namespaces, validate_sysctl,
  owners_of_sysctls, toleration, first_annotation, get_effective_annotation, missing_among,
  check_present, check_required, validate_required_plugins,
}
use nri.Validator.Accepts.{Permitted, validate_container_adjustment-Permitted}

abbrev strict : DefaultValidatorConfig
strict = record {
  enable = true;
  reject_oci_hook_adjustment = true;
  reject_runtime_default_seccomp_adjustment = true;
  reject_unconfined_seccomp_adjustment = true;
  reject_custom_seccomp_adjustment = true;
  reject_namespace_adjustment = true;
  reject_sysctl_adjustment = true;
  required_plugins = "logger" ∷ [];
  tolerate_missing_annotation = "tolerate-missing";
}

abbrev box : Container
box = record {
  id = "c0";
  labels = [];
  annotations = [];
  args = "sh" ∷ [];
  env = [];
  mounts = [];
  hooks = none;
  linux = none;
  rlimits = [];
}

-- The annotation of the container requires another plugin, by its index and name.
abbrev proposal : Validating
proposal = record {
  request = record {
    container = box;
    plugins = ("logger", "10") ∷ ("audit", "20") ∷ [];
    adjust = some empty_adjustment;
    update = [];
    owners = new_owning_plugins;
  };
  annotations =
      ("required-plugins.noderesource.dev/container.web", "20-audit")
      ∷ ("required-plugins.noderesource.dev", "none-such")
      ∷ [];
  name = "web";
  profile = some unconfined;
}

abbrev one_line : String → Option (List String)
one_line s = some (s ∷ [])

-- Both plugins are present, and nothing is owned.
run_accepts : validate_container_adjustment one_line strict proposal ≡ none
unfolding validate_container_adjustment validate_oci_hooks validate_seccomp_policy
    validate_namespaces validate_sysctl validate_required_plugins toleration check_required
    check_present missing_among get_plugin_map get_effective_annotation first_annotation
    owners_of_sysctls hooks_owner seccomp_policy_owner namespace_owners simple_owner
    compound_owner_map owners_for lookup keep has_key insert
run_accepts = refl

validate_container_adjustment-Permitted_example :
    (validate_container_adjustment one_line strict proposal ≡ none)
    ↔ Permitted one_line strict proposal
validate_container_adjustment-Permitted_example =
    validate_container_adjustment-Permitted one_line strict proposal
