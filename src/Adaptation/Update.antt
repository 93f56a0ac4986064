-- ===== src/Adaptation/Update.antt =====
-- `result` as a whole (pkg/adaptation/result.go): the updates of other containers that plugins ask for,
-- one plugin's answer, and the responses to the runtime. `reply.update` is a list of pointers to the
-- updates that the map `updates` holds, so here it is the list of their container ids.
pub mod Granted
pub mod Atomic
pub mod Listed
pub mod Merged
pub mod Ignored
use nri.Base.{
  String, Bool, true, false, not, ◌&&◌, Option, none, some, List, [], ◌∷◌, ◌++◌, ◌==◌, string_eq,
  map, if◌then◌else◌,
}
use nri.Base.Map.{Map, lookup, insert}
use nri.Base.Exec.{
  Error, conflict, during_creation, panic, Outcome, ok, err, Exec, done, ◌>>=◌, ◌>>◌,
}
use nri.Api.Types.{ContainerAdjustment, ContainerUpdate, Container, LinuxResources}
use nri.Api.Owners.{OwningPlugins, new_owning_plugins}
use nri.Adaptation.State.{
  Resources, no_resources, CollectedContainer, Adjustment, Creation, collect_resources,
  collect_creation,
}
use nri.Adaptation.Limits.{
  Targets, at_memory, at_cpu, adjust_memory_resource, adjust_cpu_resource, set_hugepage_limits,
  set_unified, set_blockio_class, set_rdt_class, set_pids,
}
use nri.Adaptation.Adjust.{Ranges, adjust}
use nri.Adaptation.Copy.{copy}

-- `request.update`: the id of its container, and its resources.
pub record UpdateRequest : Type 0 where
  pub id : String
  pub resources : Resources

-- A collected update, with its `Linux` and `Resources` set.
pub record CollectedUpdate : Type 0 where
  pub container_id : String
  pub resources : Resources
  pub ignore_failure : Bool

-- `create` holds `request.create.Container` and `reply.adjust`, which are set together.
pub record Result : Type 0 where
  pub create : Option (CollectedContainer × Adjustment)
  pub update : Option UpdateRequest
  pub reply_update : List String
  pub updates : Map String CollectedUpdate
  pub owners : OwningPlugins

unfoldable pub collect_create_container_result : Container → Result
unfolding collect_creation
collect_create_container_result c =
    let creation = collect_creation c in
    record {
      create = some (creation.container, creation.adjust);
      update = none;
      reply_update = [];
      updates = [];
      owners = creation.owners;
    }

-- The request's container id and its resources, which may be nil; no request at all for a stop.
unfoldable pub collect_update_container_result : Option (String × Option LinuxResources) → Result
unfolding collect_resources
collect_update_container_result request = record {
  create = none;
  update = elim request [
    | none ↦ none
    | some (id, resources) ↦ some (record {
      id = id;
      resources = elim resources [ none ↦ no_resources | some r ↦ collect_resources r ];
    })
  ];
  reply_update = [];
  updates = [];
  owners = new_owning_plugins;
}

unfoldable pub collect_stop_container_result : Result
unfolding collect_update_container_result
collect_stop_container_result = collect_update_container_result none

-- `r.request.update != nil && r.request.update.Container.Id == id`
unfoldable pub is_requested : String → Result → Bool
is_requested id r = elim r.update [ none ↦ false | some q ↦ q.id == id ]

unfoldable pub is_created : String → Result → Bool
is_created id r = elim r.create [ none ↦ false | some (c, a) ↦ c.id == id ]

new_update : ContainerUpdate → CollectedUpdate
new_update u = record {
  container_id = u.container_id;
  resources = no_resources;
  ignore_failure = u.ignore_failure;
}

-- The pointer that the Go code returns is the entry of the map at the container's id.
unfoldable pub get_container_update : ContainerUpdate → String → Exec Result (Unit {0})
unfolding new_update
get_container_update u plugin r =
    let id = u.container_id in
    if is_created id r then (err (during_creation plugin id), r) else elim (lookup id r.updates) [
      | some update ↦ (
        ok tt,
        record r {
          updates =
              insert id
                (record update { ignore_failure = update.ignore_failure && u.ignore_failure })
                r.updates;
        },
      )
      | none ↦ (
        ok tt,
        record r {
          updates = insert id (new_update u) r.updates;
          reply_update = if is_requested id r then r.reply_update else r.reply_update ++ id ∷ [];
        },
      )
    ]

-- The last step reads the pids of the copy that is updated, where the others read the update's.
unfoldable pub update_targets :
    LinuxResources → String → String → Exec (Targets Resources) (Unit {0})
update_targets u id plugin = do
  at_memory (adjust_memory_resource u.memory id plugin)
  at_cpu (adjust_cpu_resource u.cpu id plugin)
  set_hugepage_limits u.hugepage_limits id plugin
  set_unified u.unified id plugin
  set_blockio_class u.blockio_class id plugin
  set_rdt_class u.rdt_class id plugin
  λ t. set_pids t.container.pids id plugin t

-- The resources that an update of a container starts from.
unfoldable pub current_resources : String → Result → Resources
unfolding is_requested
current_resources id r =
    let collected : Resources = elim (lookup id r.updates) [
      | none ↦ no_resources
      | some u ↦ u.resources
    ] in
    elim r.update [ none ↦ collected | some q ↦ if q.id == id then q.resources else collected ]

-- The update and the request get a copy of the new resources.
unfoldable pub put_resources : String → Resources → Result → Result
put_resources id resources r = record r {
  updates = elim (lookup id r.updates) [
    | none ↦ r.updates
    | some u ↦ insert id (record u { resources = copy resources }) r.updates
  ];
  update = elim r.update [
    | none ↦ none
    | some q ↦ some (if q.id == id then record q { resources = copy resources } else q)
  ];
}

unfoldable pub update_resources : ContainerUpdate → String → Exec Result (Unit {0})
update_resources u plugin r = elim u.resources [
  | none ↦ (ok tt, r)
  | some resources ↦
      let id = u.container_id in
      let done =
        update_targets resources id plugin
          (record { container = copy (current_resources id r); reply = none; owners = r.owners }) in
      elim done.0 [
        | ok _ ↦ (ok tt, put_resources id done.1.container (record r { owners = done.1.owners }))
        | err e ↦ (err e, record r { owners = done.1.owners })
      ]
]

-- A panic is no error that could be ignored.
abbrev pub is_panic : Error → Bool
is_panic panic = true
is_panic (conflict _ _ _ _) = false
is_panic (during_creation _ _) = false

-- `result.update`
unfoldable pub update : List ContainerUpdate → String → Exec Result (Unit {0})
update [] plugin r = (ok tt, r)
update (u ∷ us) plugin r =
    let got = get_container_update u plugin r in
    elim got.0 [
      | err e ↦ (err e, got.1)
      | ok _ ↦
          let updated = update_resources u plugin got.1 in
          let rest = update us plugin updated.1 in
          elim updated.0 [
            | ok _ ↦ rest
            | err e ↦ if u.ignore_failure && not (is_panic e) then rest else (err e, updated.1)
          ]
    ]

-- The adjustments work on the request and the reply of a creation. Where there is none, the Go code
-- dereferences a nil pointer.
unfoldable pub adjust_result : Ranges → ContainerAdjustment → String → Exec Result (Unit {0})
adjust_result ranges rpl plugin r = elim r.create [
  | none ↦ (err panic, r)
  | some (container, adjustment) ↦
      let done =
        adjust ranges rpl plugin
          (record { container = container; adjust = adjustment; owners = r.owners }) in
      (done.0, record r { create = some (done.1.container, done.1.adjust); owners = done.1.owners })
]

-- What a plugin answers; a nil response is `no_response`.
pub data Response : Type 0 where
  no_response : Response
  create_response : Option ContainerAdjustment → List ContainerUpdate → Response
  update_response stop_response : List ContainerUpdate → Response

unfoldable pub apply : Ranges → Response → String → Exec Result (Unit {0})
apply ranges no_response plugin = done
apply ranges (create_response none updates) plugin = update updates plugin
apply ranges (create_response (some rpl) updates) plugin = do
  adjust_result ranges rpl plugin
  update updates plugin
apply ranges (update_response updates) plugin = update updates plugin
apply ranges (stop_response updates) plugin = update updates plugin

-- The loops of `CreateContainer`, `UpdateContainer` and `StopContainer` (pkg/adaptation/adaptation.go)
-- over the plugins, each given by its name and its answer.
unfoldable pub apply_all : Ranges → List (String × Response) → Exec Result (Unit {0})
apply_all ranges [] r = (ok tt, r)
apply_all ranges ((plugin, response) ∷ rest) r =
    let applied = apply ranges response plugin r in
    let more = apply_all ranges rest applied.1 in
    elim applied.0 [ ok _ ↦ more | err e ↦ (err e, applied.1) ]

-- The updates that the pointers of the reply lead to.
unfoldable pub replied_updates :
    List String → Map String CollectedUpdate → List (Option CollectedUpdate)
replied_updates ids updates = map (λ id. lookup id updates) ids

-- `createContainerResponse`: the adjustment, and the updates.
unfoldable pub create_container_response :
    Result → Option Adjustment × List (Option CollectedUpdate)
unfolding replied_updates
create_container_response r =
    (elim r.create [ none ↦ none | some (c, a) ↦ some a ], replied_updates r.reply_update r.updates)

-- `updateContainerResponse`: the container of the request comes last; nil where no plugin asked for it.
unfoldable pub update_container_response : Result → Outcome (List (Option CollectedUpdate))
unfolding replied_updates
update_container_response r = elim r.update [
  | none ↦ err panic
  | some q ↦ ok (replied_updates r.reply_update r.updates ++ lookup q.id r.updates ∷ [])
]

unfoldable pub stop_container_response : Result → List (Option CollectedUpdate)
unfolding replied_updates
stop_container_response r = replied_updates r.reply_update r.updates
