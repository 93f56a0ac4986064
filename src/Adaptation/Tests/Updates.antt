-- ===== src/Adaptation/Tests/Updates.antt =====
-- The theorems about updates at concrete answers of plugins.
use nri.Base.{String, ◌≡◌, refl, true, false, Option, none, some, List, [], ◌∷◌, string_eq, nat_eq}
use nri.Base.Int.{pos}
use nri.Base.Map.{lookup, insert}
use nri.Base.{if◌then◌else◌, ◌==◌, string_eq}
use nri.Base.Exec.{for_each, ok, err, conflict}
use nri.Api.Removal.{is_marked_for_removal}
use nri.Api.Field.{key, mem_limit}
use nri.Api.Types.{LinuxResources, Container, ContainerUpdate}
use nri.Api.Owners.{new_owning_plugins, with_owners_for, must_owners_for, claim_simple}
use nri.Api.Owners.Claims.{claim_mem_limit}
use nri.Adaptation.State.{no_resources}
use nri.Adaptation.Adjust.{Ranges}
use nri.Adaptation.Limits.{
  at_memory, at_cpu, adjust_memory_resource, adjust_cpu_resource, set_limit, set_hugepage_limits,
  set_unified, set_blockio_class, set_rdt_class, set_pids,
}
use nri.Adaptation.Copy.{copy}
use nri.Adaptation.Update.{
  Result, Response, create_response, update_response, collect_create_container_result,
  collect_update_container_result, apply_all, update_resources, CollectedUpdate, current_resources,
  is_requested, is_created, update, update_targets,
}
use nri.Adaptation.Update.Listed.{IsListed, reply_update-IsListed}
use nri.Adaptation.Update.Atomic.{
  SameButOwners, with_pids, updating, update_resources-err, update_resources-pids,
}
use nri.Adaptation.Update.Granted.{OnlyClaims, Blames}
use nri.Adaptation.Update.Merged.{merge_update, update_resources-merge}
use nri.Adaptation.Update.Ignored.{update-MayFail}
use nri.Adaptation.Tests.{limited, second-IsName}

-- Two plugins update the memory of containers.
abbrev asking : String → ContainerUpdate
asking id = record { container_id = id; resources = some limited; ignore_failure = false }

abbrev answers : List (String × Response)
answers =
    ("10-first", create_response none (asking "c1" ∷ asking "c2" ∷ []))
    ∷ ("20-second", update_response (asking "c2" ∷ []))
    ∷ []

abbrev ranges : Ranges
ranges = record { mounts = λ m. m; namespaces = λ m. [] }

reply_update-IsListed_example :
    ((c : Container) → IsListed (apply_all ranges answers (collect_create_container_result c)).1)
    × ((request : Option (String × Option LinuxResources))
        → IsListed (apply_all ranges answers (collect_update_container_result request)).1)
reply_update-IsListed_example = reply_update-IsListed ranges answers

-- The memory limit of the container belongs to another plugin.
abbrev limited_by_first : Result
limited_by_first = record (collect_update_container_result (some ("c1", none))) {
  owners = (claim_mem_limit "c1" "10-first" new_owning_plugins).1;
}

second_refused :
    (update_resources (asking "c1") "20-second" limited_by_first).0
    ≡ err (conflict (key mem_limit) "20-second" "10-first" [])
unfolding update_resources update_targets at_memory adjust_memory_resource set_limit claim_mem_limit
    with_owners_for claim_simple lookup must_owners_for insert is_marked_for_removal
second_refused = refl

update_resources-err_example :
    let refusal = conflict (key mem_limit) "20-second" "10-first" [] in
    let r' = (update_resources (asking "c1") "20-second" limited_by_first).1 in
    SameButOwners r' limited_by_first
    × OnlyClaims "c1" "20-second" limited_by_first.owners r'.owners
    × Blames "c1" "20-second" refusal r'.owners
update_resources-err_example =
    update_resources-err (asking "c1") "20-second" limited_by_first
      (conflict (key mem_limit) "20-second" "10-first" []) second-IsName second_refused

update_resources-pids_example :
    update_resources
      (updating (asking "c1") (with_pids (some (record { limit = pos 7 })) limited))
      "10-first"
      limited_by_first
    ≡ update_resources (updating (asking "c1") (with_pids none limited)) "10-first" limited_by_first
update_resources-pids_example =
    update_resources-pids (asking "c1") limited (some (record { limit = pos 7 })) none "10-first"
      limited_by_first

-- The container of the request has been asked for before.
abbrev collected : CollectedUpdate
collected = record { container_id = "c1"; resources = no_resources; ignore_failure = false }

abbrev asked_before : Result
asked_before = record (collect_update_container_result (some ("c1", none))) {
  updates = ("c1", collected) ∷ [];
}

found_collected : lookup "c1" asked_before.updates ≡ some collected
unfolding lookup
found_collected = refl

first_granted : (update_resources (asking "c1") "10-first" asked_before).0 ≡ ok tt
unfolding update_resources update_targets current_resources copy collect_update_container_result
    at_memory at_cpu adjust_memory_resource adjust_cpu_resource set_limit set_hugepage_limits
    set_unified set_blockio_class set_rdt_class set_pids for_each claim_mem_limit with_owners_for
    claim_simple lookup must_owners_for insert is_marked_for_removal
first_granted = refl

update_resources-merge_example :
    let new = merge_update limited (current_resources "c1" asked_before) in
    let r' = (update_resources (asking "c1") "10-first" asked_before).1 in
    ((id : String)
      → lookup id r'.updates ≡ (
          if "c1" == id
          then some (record collected { resources = new })
          else lookup id asked_before.updates))
    × (is_requested "c1" asked_before ≡ true
        → r'.update ≡ some (record { id = "c1"; resources = new }))
update_resources-merge_example =
    update_resources-merge (asking "c1") limited collected "10-first" asked_before refl
      found_collected first_granted

abbrev may_fail : String → ContainerUpdate
may_fail id = record (asking id) { ignore_failure = true }

not_created : (id : String) → is_created id limited_by_first ≡ false
unfolding is_created collect_update_container_result
not_created id = refl

update-MayFail_example :
    (update (may_fail "c1" ∷ may_fail "c2" ∷ []) "20-second" limited_by_first).0 ≡ ok tt
update-MayFail_example =
    update-MayFail (may_fail "c1" ∷ may_fail "c2" ∷ []) "20-second" limited_by_first
      ((refl, not_created "c1"), ((refl, not_created "c2"), tt))
