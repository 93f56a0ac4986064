-- ===== src/Validator/Accepts.antt =====
-- The default validator accepts exactly what its configuration permits
-- (plugins/default-validator/default-validator.go).
use nri.Base.{
  String, ◌≡◌, ◌≢◌, refl, ◌⊎◌, inl, inr, ◌↔◌, Bool, true, false, Bool-cases, Option, none, some,
  Option-cases, List, [], ◌∷◌, ◌++◌, All, ◌==◌, string_eq, ne_of_beq, subst,
}
use nri.Adaptation.State.{Adjustment}
use nri.Validator.{
  DefaultValidatorConfig, Validating, ValidationError, get_effective_annotation, parse_bool,
  required_plugins_annotation, tolerated, not_tolerated, invalid_toleration, toleration,
  check_required, check_present, validate_required_plugins, first_error,
  validate_container_adjustment, validate_oci_hooks, validate_seccomp_policy, validate_namespaces,
  validate_sysctl,
}
use nri.Validator.Required.{IsPresent, check_present-IsPresent}
use nri.Validator.Permits.{AdjustPermitted, adjust_iff}

-- The toleration annotation has a value that reads as `b`, none for one that does not.
abbrev pub Tolerates : DefaultValidatorConfig → Validating → Option Bool → Type 0
Tolerates cfg v b =
    (cfg.tolerate_missing_annotation ≢ "")
    × ((value : String) × ((get_effective_annotation v.annotations cfg.tolerate_missing_annotation
              v.name
            ≡ some value)
          × (parse_bool value ≡ b)))

module _ (unmarshal : String → Option (List String)) where
  -- The plugins that the configuration and an annotation require, if that can be read.
  abbrev pub Requires : DefaultValidatorConfig → Option String → List String → Type 0
  Requires cfg none required = required ≡ cfg.required_plugins
  Requires cfg (some value) required =
      (annotated : List String) × ((unmarshal value ≡ some annotated)
        × (required ≡ cfg.required_plugins ++ annotated))

  abbrev annotation_of : Validating → Option String
  annotation_of v = get_effective_annotation v.annotations required_plugins_annotation v.name

  -- All of them are present.
  abbrev pub IsComplete : DefaultValidatorConfig → Validating → Type 0
  IsComplete cfg v =
      (required : List String) × (Requires cfg (annotation_of v) required
        × All (λ r. IsPresent r v.request.plugins) required)

  -- What the configuration permits.
  pub record Permitted (cfg : DefaultValidatorConfig) (v : Validating) : Type 0 where
    pub adjust : (a : Adjustment) → v.request.adjust ≡ some a → AdjustPermitted cfg v a
    pub required : Tolerates cfg v (some true) ⊎ (¬ (Tolerates cfg v none) × IsComplete cfg v)

  -- The check of a list that is known.
  checked :
      (v : Validating) (required : List String) (Known : List String → Type 0)
      → Known required
      → ((others : List String) → Known others → others ≡ required)
      → (check_present required v.request.plugins ≡ none) ↔ (
          (others : List String) × (Known others × All (λ r. IsPresent r v.request.plugins) others))
  checked v required Known known unique =
      let (there, back) = check_present-IsPresent required v.request.plugins in
      (
        λ e. (required, (known, there e)),
        λ (others, (k, all)).
            back (subst (All (λ r. IsPresent r v.request.plugins)) (unique others k) all),
      )

  check_required-IsComplete :
      (cfg : DefaultValidatorConfig) (v : Validating)
      → (check_required unmarshal cfg v ≡ none) ↔ IsComplete cfg v
  unfolding check_required
  check_required-IsComplete cfg v = elim (Option-cases (annotation_of v)) [
    | inl plain ↦
        rw (check_required, plain)
          (checked v cfg.required_plugins (λ xs. xs ≡ cfg.required_plugins) refl (λ xs e. e))
    | inr (value, annotation) ↦ elim (Option-cases (unmarshal value)) [
      | inl unread ↦
          rw (check_required, annotation, unread)
            (λ e. absurd (cc), λ h. let list = h.1.0.1.0 in absurd (cc))
      | inr (annotated, read) ↦
          rw (check_required, annotation, read)
            (checked v (cfg.required_plugins ++ annotated)
              (λ xs.
                (ys : List String) × ((some annotated ≡ some ys)
                  × (xs ≡ cfg.required_plugins ++ ys)))
              (annotated, (refl, refl))
              (λ xs (ys, (same, e)). let eq : annotated ≡ ys = cc in rw eq e))
    ]
  ]

-- The three things that the toleration annotation may say.
toleration_cases :
    (cfg : DefaultValidatorConfig) (v : Validating)
    → (Tolerates cfg v (some true) × (toleration cfg v ≡ tolerated))
      ⊎ ((¬ (Tolerates cfg v (some true)))
          × ((Tolerates cfg v none
                × ((value : String) × (toleration cfg v ≡ invalid_toleration value)))
              ⊎ ((¬ (Tolerates cfg v none)) × (toleration cfg v ≡ not_tolerated))))
unfolding toleration
toleration_cases cfg v = elim (Bool-cases (cfg.tolerate_missing_annotation == "")) [
  | inl unset ↦
      let key : cfg.tolerate_missing_annotation ≡ "" =
        (string_eq.same_iff cfg.tolerate_missing_annotation "").0 unset in
      inr (λ t. t.0 key, inr (λ t. t.0 key, rw (toleration, unset) refl))
  | inr set ↦
      let key = ne_of_beq cfg.tolerate_missing_annotation "" set in
      elim (Option-cases
        (get_effective_annotation v.annotations cfg.tolerate_missing_annotation v.name)) [
          | inl silent ↦ inr (
            λ (k, (value, (e, b))). cc,
            inr (λ (k, (value, (e, b))). cc, rw (toleration, set, silent) refl),
          )
          | inr (value, says) ↦ elim (Option-cases (parse_bool value)) [
            | inl unread ↦ inr (
              λ (k, (other, (e, b))). let same : value ≡ other = cc in cc,
              inl (
                (key, (value, (says, unread))),
                (value, rw (toleration, set, says, unread) refl),
              ),
            )
            | inr (true, read) ↦
                inl ((key, (value, (says, read))), rw (toleration, set, says, read) refl)
            | inr (false, read) ↦ inr (
              λ (k, (other, (e, b))). let same : value ≡ other = cc in cc,
              inr (
                λ (k, (other, (e, b))). let same : value ≡ other = cc in cc,
                rw (toleration, set, says, read) refl,
              ),
            )
          ]
        ]
]

module _ (unmarshal : String → Option (List String)) where
  required_iff :
      (cfg : DefaultValidatorConfig) (v : Validating)
      → (validate_required_plugins unmarshal cfg v ≡ none)
        ↔ (Tolerates cfg v (some true) ⊎ (¬ (Tolerates cfg v none) × IsComplete unmarshal cfg v))
  unfolding validate_required_plugins
  required_iff cfg v = elim (toleration_cases cfg v) [
    | inl (tolerant, is) ↦ rw (validate_required_plugins, is) (λ e. inl tolerant, λ h. refl)
    | inr (strict, inl (bad, (value, is))) ↦
        rw (validate_required_plugins, is)
          (
            λ e. absurd (cc),
            λ h. elim h [ inl t ↦ absurd (strict t) | inr (fine, all) ↦ absurd (fine bad) ],
          )
    | inr (strict, inr (fine, is)) ↦
        let (there, back) = check_required-IsComplete unmarshal cfg v in
        rw (validate_required_plugins, is)
          (
            λ e. inr (fine, there e),
            λ h. elim h [ inl t ↦ absurd (strict t) | inr (_, all) ↦ back all ],
          )
  ]

  first_error-none :
      (xs : List (Option ValidationError))
      → (first_error unmarshal xs ≡ none) ↔ All (λ x. x ≡ none) xs
  first_error-none [] = (λ e. tt, λ h. refl)
  first_error-none (none ∷ xs) =
      let (there, back) = first_error-none xs in (λ e. (refl, there e), λ h. back h.1)
  first_error-none (some x ∷ xs) = (λ e. absurd (cc), λ h. let no_error = h.0 in absurd (cc))

  -- Without an adjustment only the required plugins are checked.
  unadjusted :
      (cfg : DefaultValidatorConfig) (v : Validating)
      → v.request.adjust ≡ none
      → (validate_oci_hooks cfg v ≡ none)
        × ((validate_seccomp_policy cfg v ≡ none)
            × ((validate_namespaces cfg v ≡ none) × (validate_sysctl cfg v ≡ none)))
  unfolding validate_oci_hooks validate_seccomp_policy validate_namespaces validate_sysctl
  unadjusted cfg v is = (
    rw (validate_oci_hooks, is) refl,
    (
      rw (validate_seccomp_policy, is) refl,
      (rw (validate_namespaces, is) refl, rw (validate_sysctl, is) refl),
    ),
  )

  validate_iff :
      (cfg : DefaultValidatorConfig) (v : Validating)
      → (validate_container_adjustment unmarshal cfg v ≡ none) ↔ (
          ((validate_oci_hooks cfg v ≡ none)
            × ((validate_seccomp_policy cfg v ≡ none)
                × ((validate_namespaces cfg v ≡ none) × (validate_sysctl cfg v ≡ none))))
          × (validate_required_plugins unmarshal cfg v ≡ none))
  unfolding validate_container_adjustment
  validate_iff cfg v =
      let (there, back) = first_error-none (
        validate_oci_hooks cfg v
        ∷ validate_seccomp_policy cfg v
        ∷ validate_namespaces cfg v
        ∷ validate_required_plugins unmarshal cfg v
        ∷ validate_sysctl cfg v
        ∷ []) in
      (
        λ e. let (h, (s, (n, (r, (y, u))))) = there e in ((h, (s, (n, y))), r),
        λ ((h, (s, (n, y))), r). back (h, (s, (n, (r, (y, tt))))),
      )

  -- The default validator accepts a request exactly if the configuration permits it: of an adjustment,
  -- no field whose switch is on has an owner (the hooks, the namespaces, a seccomp policy over the
  -- profile that the container has, the sysctls of the reply), and the required plugins, of the
  -- configuration and of the annotation, are present by name or by index and name, unless the toleration
  -- annotation is true; an annotation that cannot be read is not permitted.
  pub validate_container_adjustment-Permitted :
      (cfg : DefaultValidatorConfig) (v : Validating)
      → (validate_container_adjustment unmarshal cfg v ≡ none) ↔ Permitted unmarshal cfg v
  validate_container_adjustment-Permitted cfg v =
      let (all, each) = validate_iff cfg v in
      let (there, back) = required_iff cfg v in
      (
        λ e. record {
          adjust = λ a is. (adjust_iff cfg v a is).0 (all e).0;
          required = there (all e).1;
        },
        λ h. elim (Option-cases v.request.adjust) [
          | inl is ↦ each (unadjusted cfg v is, back h.required)
          | inr (a, is) ↦ each ((adjust_iff cfg v a is).1 (h.adjust a is), back h.required)
        ],
      )
