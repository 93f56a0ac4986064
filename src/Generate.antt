-- ===== src/Generate.antt =====
-- How an adjustment's annotations and sysctls are applied to an OCI Spec
-- (pkg/runtime-tools/generate/generate.go).
pub mod Entries
pub mod Orders
mod Tests
use nri.Base.{
  String, ◌≡◌, Bool, true, false, Option, none, some, List, [], ◌∷◌, string_eq, ◌==◌, if◌then◌else◌,
}
use nri.Base.Map.{Map}
use nri.Api.Removal.{is_marked_for_removal}

-- What the code relies on of the Spec generator that it embeds: a map of the Spec, such as its
-- annotations, with its `Add…` and `Remove…`.
pub record SpecEntries (Spec : Type 0) : Type 0 where
  pub get : String → Spec → Option String
  pub add : String → String → Spec → Spec
  pub remove : String → Spec → Spec
  pub get_add :
      (k j v : String) (s : Spec) → get j (add k v s) ≡ (if k == j then some v else get j s)
  pub get_remove :
      (k j : String) (s : Spec) → get j (remove k s) ≡ (if k == j then none else get j s)

module _ {Spec : Type 0} (entries : SpecEntries Spec) where
  open entries use {add, remove}

  -- The loop over the map's entries, in the order in which Go ranges over them.
  unfoldable pub apply_entries : Map String String → Spec → Spec
  apply_entries [] s = s
  apply_entries ((k, v) ∷ rest) s =
      let (key, marked) = is_marked_for_removal k in
      apply_entries rest (if marked then remove key s else add k v s)

  -- `AdjustAnnotations` and `AdjustSysctl`; `filter` is the filter of the generator's options, with
  -- none for its error, which is returned.
  unfoldable pub generate_entries :
      (Map String String → Option (Map String String)) → Map String String → Spec → Option Spec
  unfolding apply_entries
  generate_entries filter m s = elim (filter m) [
    | none ↦ none
    | some filtered ↦ some (apply_entries filtered s)
  ]

-- The filter of a generator without an option for it.
abbrev pub nop_filter : Map String String → Option (Map String String)
nop_filter m = some m
