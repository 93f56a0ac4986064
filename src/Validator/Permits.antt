-- ===== src/Validator/Permits.antt =====
-- What the default validator permits (plugins/default-validator/default-validator.go).
use nri.Base.{
  ℕ, String, ◌≡◌, refl, inl, inr, ◌↔◌, true, false, Bool-cases, List-cases, Option, none, some,
  Option-cases, [], ◌∷◌, All, arith, nat_eq, string_eq,
}
use nri.Base.Map.{Map}
use nri.Api.Owners.{OwningPlugins}
use nri.Api.Owners.Lookups.{hooks_owner, seccomp_policy_owner, namespace_owners, sysctl_owner}
use nri.Adaptation.State.{Adjustment}
use nri.Validator.{
  DefaultValidatorConfig, Validating, owners_of, id_of, unconfined, runtime_default, localhost,
  entries_of, seccomp_error, validate_oci_hooks, validate_seccomp_policy, validate_namespaces,
  owners_of_sysctls, validate_sysctl,
}

-- A policy over the container's profile, if that has one: the switches of the profile's type are off.
abbrev pub IsProfilePermitted : DefaultValidatorConfig → Option ℕ → Type 0
IsProfilePermitted cfg none = cfg.reject_unconfined_seccomp_adjustment ≡ false
IsProfilePermitted cfg (some type) =
    (type ≡ unconfined → cfg.reject_unconfined_seccomp_adjustment ≡ false)
    × ((type ≡ runtime_default → cfg.reject_runtime_default_seccomp_adjustment ≡ false)
        × (type ≡ localhost → cfg.reject_custom_seccomp_adjustment ≡ false))

-- What may be owned of an adjustment.
pub record AdjustPermitted (cfg : DefaultValidatorConfig) (v : Validating) (a : Adjustment)
    : Type 0 where
  pub hooks : cfg.reject_oci_hook_adjustment ≡ true → hooks_owner (id_of v) (owners_of v) ≡ none
  pub seccomp :
      (owner : String)
      → seccomp_policy_owner (id_of v) (owners_of v) ≡ some owner
      → IsProfilePermitted cfg v.profile
  pub namespaces :
      cfg.reject_namespace_adjustment ≡ true → namespace_owners (id_of v) (owners_of v) ≡ none
  pub sysctls :
      cfg.reject_sysctl_adjustment ≡ true
      → All
          (λ entry. sysctl_owner (id_of v) entry.0 (owners_of v) ≡ none)
          (entries_of a.linux.sysctl)

seccomp_error-IsProfilePermitted :
    (cfg : DefaultValidatorConfig) (profile : Option ℕ) (owner : String)
    → (seccomp_error cfg profile owner ≡ none) ↔ IsProfilePermitted cfg profile
unfolding seccomp_error
seccomp_error-IsProfilePermitted cfg none owner = ground arith
seccomp_error-IsProfilePermitted cfg (some type) owner = ground arith

owners_of_sysctls-none :
    (id : String) (o : OwningPlugins) (m : Map String String)
    → (owners_of_sysctls id o m ≡ []) ↔ All (λ entry. sysctl_owner id entry.0 o ≡ none) m
unfolding owners_of_sysctls
owners_of_sysctls-none id o [] = (λ e. tt, λ h. refl)
owners_of_sysctls-none id o ((k, value) ∷ m) = elim (Option-cases (sysctl_owner id k o)) [
  | inl free ↦
      rw (owners_of_sysctls, free)
        (
          λ e. (refl, (owners_of_sysctls-none id o m).0 e),
          λ h. (owners_of_sysctls-none id o m).1 h.1,
        )
  | inr (owner, owned) ↦
      rw (owners_of_sysctls, owned) (λ e. absurd (cc), λ h. let free = h.0 in absurd (cc))
]

module _ (cfg : DefaultValidatorConfig) (v : Validating) (a : Adjustment)
    (is : v.request.adjust ≡ some a) where
  hooks_iff :
      (validate_oci_hooks cfg v ≡ none)
      ↔ (cfg.reject_oci_hook_adjustment ≡ true → hooks_owner (id_of v) (owners_of v) ≡ none)
  unfolding validate_oci_hooks
  hooks_iff = ground (arith, is)

  seccomp_iff : (validate_seccomp_policy cfg v ≡ none) ↔ (
      (owner : String)
      → seccomp_policy_owner (id_of v) (owners_of v) ≡ some owner
      → IsProfilePermitted cfg v.profile)
  unfolding validate_seccomp_policy
  seccomp_iff = elim (Option-cases (seccomp_policy_owner (id_of v) (owners_of v))) [
    | inl free ↦ rw (validate_seccomp_policy, is, free) (λ e owner owned. absurd (cc), λ h. refl)
    | inr (owner, owned) ↦
        let (there, back) = seccomp_error-IsProfilePermitted cfg v.profile owner in
        rw (validate_seccomp_policy, is, owned) (λ e other same. there e, λ h. back (h owner refl))
  ]

  namespaces_iff :
      (validate_namespaces cfg v ≡ none)
      ↔ (cfg.reject_namespace_adjustment ≡ true → namespace_owners (id_of v) (owners_of v) ≡ none)
  unfolding validate_namespaces
  namespaces_iff = ground (arith, is)

  sysctls_iff : (validate_sysctl cfg v ≡ none) ↔ (
      cfg.reject_sysctl_adjustment ≡ true
      → All
          (λ entry. sysctl_owner (id_of v) entry.0 (owners_of v) ≡ none)
          (entries_of a.linux.sysctl))
  unfolding validate_sysctl
  sysctls_iff =
      let listed = owners_of_sysctls-none (id_of v) (owners_of v) (entries_of a.linux.sysctl) in
      elim (Bool-cases cfg.reject_sysctl_adjustment) [
        | inr lenient ↦ rw (validate_sysctl, is, lenient) (λ e on. absurd (cc), λ h. refl)
        | inl strict ↦
            elim (List-cases
              (owners_of_sysctls (id_of v) (owners_of v) (entries_of a.linux.sysctl))) [
                | inl empty ↦
                    rw (validate_sysctl, is, strict, empty) (λ e on. listed.0 empty, λ h. refl)
                | inr (owner, others, found) ↦
                    rw (validate_sysctl, is, strict, found)
                      (λ e. absurd (cc), λ h. let free = listed.1 (h refl) in absurd (cc))
              ]
      ]

  pub adjust_iff :
      ((validate_oci_hooks cfg v ≡ none)
        × ((validate_seccomp_policy cfg v ≡ none)
            × ((validate_namespaces cfg v ≡ none) × (validate_sysctl cfg v ≡ none))))
      ↔ AdjustPermitted cfg v a
  adjust_iff = (
    λ h. record {
      hooks = hooks_iff.0 h.0;
      seccomp = seccomp_iff.0 h.1.0;
      namespaces = namespaces_iff.0 h.1.1.0;
      sysctls = sysctls_iff.0 h.1.1.1;
    },
    λ h. (
      hooks_iff.1 h.hooks,
      (seccomp_iff.1 h.seccomp, (namespaces_iff.1 h.namespaces, sysctls_iff.1 h.sysctls)),
    ),
  )
