-- ===== src/Validator/Required.antt =====
-- When a list of required plugins is present (plugins/default-validator/default-validator.go).
use nri.Base.{
  String, ◌≡◌, refl, ◌⊎◌, inl, inr, ◌↔◌, Bool, true, false, not, ◌||◌, Bool-cases, none, some, List,
  [], ◌∷◌, All, All-mono, keep, ◌==◌, string_eq, arith,
}
use nri.Base.Map.{Map, insert, has_key, lookup, lookup-insert}
use nri.Api.PluginName.{full_name}
use nri.Validator.{get_plugin_map, missing_among, check_present, missing_plugins}

-- One of the plugins has the name, by itself or after its index and a dash.
abbrev pub IsPresent : String → List (String × String) → Type 0
IsPresent r [] = ⊥
IsPresent r ((name, index) ∷ rest) = (name ≡ r) ⊎ ((full_name index name ≡ r) ⊎ IsPresent r rest)

has_key-insert :
    {V : Type 0} (got set : String) (v : V) (m : Map String V)
    → has_key got (insert set v m) ≡ (set == got) || has_key got m
unfolding has_key
has_key-insert got set v m = elim (Bool-cases (set == got)) [
  | inl same ↦ rw (has_key, lookup-insert set got v m, same) refl
  | inr other ↦ rw (has_key, lookup-insert set got v m, other) refl
]

has_key-get_plugin_map :
    (r : String) (ps : List (String × String)) (m : Map String (String × String))
    → (has_key r (get_plugin_map ps m) ≡ true) ↔ ((has_key r m ≡ true) ⊎ IsPresent r ps)
unfolding get_plugin_map
has_key-get_plugin_map r [] m = ground arith
has_key-get_plugin_map r ((name, index) ∷ ps) m = ground (
  arith,
  string_eq.same_iff name r,
  string_eq.same_iff (full_name index name) r,
  has_key-insert r (full_name index name) (name, index) (insert name (name, "") m),
  has_key-insert r name (name, "") m,
  has_key-get_plugin_map r ps
      (insert (full_name index name) (name, index) (insert name (name, "") m)),
)

keep-empty :
    {A : Type 0} (p : A → Bool) (xs : List A) → (keep p xs ≡ []) ↔ All (λ x. p x ≡ false) xs
unfolding keep
keep-empty p [] = (λ e. tt, λ u. refl)
keep-empty p (x ∷ xs) = elim (Bool-cases (p x)) [
  | inl stays ↦ rw stays (λ e. absurd (cc), λ h. let no = h.0 in absurd (cc))
  | inr goes ↦ rw goes (λ e. (refl, (keep-empty p xs).0 e), λ h. (keep-empty p xs).1 h.1)
]

-- A plugin is in the map of names exactly if it is present.
has_key-IsPresent :
    (plugins : List (String × String)) (r : String)
    → (has_key r (get_plugin_map plugins []) ≡ true) ↔ IsPresent r plugins
unfolding has_key lookup
has_key-IsPresent plugins r =
    let (there, back) = has_key-get_plugin_map r plugins [] in
    (λ e. elim (there e) [ inl found ↦ absurd (cc) | inr p ↦ p ], λ p. back (inr p))

not_missing :
    (plugins : List (String × String)) (r : String)
    → (not (has_key r (get_plugin_map plugins [])) ≡ false) ↔ IsPresent r plugins
not_missing plugins r = ground (arith, has_key-IsPresent plugins r)

pub check_present-IsPresent :
    (required : List String) (plugins : List (String × String))
    → (check_present required plugins ≡ none) ↔ All (λ r. IsPresent r plugins) required
unfolding check_present missing_among
check_present-IsPresent required plugins =
    let all = keep-empty (λ r. not (has_key r (get_plugin_map plugins []))) required in
    elim (missing_among required (get_plugin_map plugins []))
        as (λ m.
          ((m ≡ []) ↔ All (λ r. not (has_key r (get_plugin_map plugins [])) ≡ false) required)
          → ((elim m [ [] ↦ none | r ∷ missing ↦ some (missing_plugins (r ∷ missing)) ]) ≡ none)
            ↔ All (λ r. IsPresent r plugins) required) [
              | [] ↦ λ k. (
                λ e. All-mono _ _ required (λ r. (not_missing plugins r).0) (k.0 refl),
                λ h. refl,
              )
              | r ∷ missing ↦ λ k. (
                λ e. absurd (cc),
                λ h. absurd (
                    let none_left =
                      k.1 (All-mono _ _ required (λ r. (not_missing plugins r).1) h) in
                    cc),
              )
            ]
      all
