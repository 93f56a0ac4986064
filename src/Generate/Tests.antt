-- ===== src/Generate/Tests.antt =====
-- The theorems about the Spec generator at a Spec that is its annotations.
use nri.Base.{String, ◌≡◌, refl, false, none, some, [], ◌∷◌, string_eq}
use nri.Base.Map.{Map, lookup, insert, delete, has_key, lookup-insert, lookup-delete}
use nri.Base.Exec.{ok, for_each}
use nri.Api.Removal.{is_marked_for_removal, mark_for_removal}
use nri.Api.Types.{Container}
use nri.Api.Owners.{
  with_owners_for, must_owners_for, claim_compound, clear_compound, clear_owners_for,
}
use nri.Api.Owners.Claims.{claim_annotation, clear_annotation}
use nri.Adaptation.State.{Creation, collect_creation}
use nri.Adaptation.Maps.{
  adjust_annotations, adjust_entries, set_entries, removed_keys, unmarked_entries,
  replace_annotation, set_annotation,
}
use nri.Generate.{SpecEntries}
use nri.Generate.Orders.{Either, replacing, replaced_annotation-Either}

abbrev annotations : SpecEntries (Map String String)
annotations = record {
  get = lookup;
  add = insert;
  remove = delete;
  get_add = λ k j v m. lookup-insert k j v m;
  get_remove = λ k j m. lookup-delete k j m;
}

abbrev spec : Map String String
spec = ("zone", "a") ∷ ("keep", "yes") ∷ []

abbrev zoned : Container
zoned = record {
  id = "c0";
  labels = [];
  annotations = spec;
  args = "sh" ∷ [];
  env = [];
  mounts = [];
  hooks = none;
  linux = none;
  rlimits = [];
}

abbrev start : Creation
start = collect_creation zoned

zone_plain : (is_marked_for_removal "zone").1 ≡ false
unfolding is_marked_for_removal
zone_plain = refl

zone_granted : (adjust_annotations (replacing "zone" "b") "10-first" start).0 ≡ ok tt
unfolding adjust_annotations adjust_entries set_entries removed_keys unmarked_entries
    replace_annotation set_annotation for_each is_marked_for_removal mark_for_removal
    claim_annotation clear_annotation collect_creation has_key insert with_owners_for claim_compound
    must_owners_for clear_owners_for clear_compound delete
zone_granted = refl

replaced_annotation-Either_example :
    (lookup "zone"
        (adjust_annotations (replacing "zone" "b") "10-first" start).1.container.annotations
      ≡ some "b")
    × Either annotations
        (adjust_annotations (replacing "zone" "b") "10-first" start).1.adjust.annotations
        spec
        "zone"
        "b"
replaced_annotation-Either_example =
    replaced_annotation-Either annotations "zone" "b" "10-first" start spec zone_plain zone_granted
