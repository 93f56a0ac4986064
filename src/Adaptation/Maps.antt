-- ===== src/Adaptation/Maps.antt =====
-- The adjustments of maps (pkg/adaptation/result.go): annotations, sysctls and network devices. The
-- entries come in the order in which Go ranges over the plugin's map.
pub mod Removals
use nri.Base.{
  String, Bool, true, false, Option, none, some, List, [], ◌∷◌, ◌++◌, string_eq, if◌then◌else◌,
}
use nri.Base.Map.{Map, insert, delete, has_key}
use nri.Base.Exec.{Outcome, ok, err, panic, Exec, raise, for_each, done, gets, modify, ◌>>=◌, ◌>>◌}
use nri.Api.Types.{LinuxNetDevice}
use nri.Api.Removal.{is_marked_for_removal, mark_for_removal}
use nri.Api.Owners.{OwningPlugins}
use nri.Api.Owners.Claims.{
  claim_annotation, clear_annotation, claim_sysctl, clear_sysctl, claim_linux_net_device,
  clear_linux_net_device,
}
use nri.Adaptation.State.{Creation}
use nri.Adaptation.Lists.{owning}

module _ {V : Type 0} where
  -- The keys that are marked for removal, with no mark.
  unfoldable pub removed_keys : Map String V → Map String (Unit {0})
  removed_keys [] = []
  removed_keys ((k, v) ∷ m) =
      let (key, marked) = is_marked_for_removal k in
      let rest = removed_keys m in if marked then insert key tt rest else rest

  -- What is left of the map when the marked keys are deleted.
  unfoldable pub unmarked_entries : Map String V → Map String V
  unmarked_entries [] = []
  unmarked_entries ((k, v) ∷ m) =
      let (key, marked) = is_marked_for_removal k in
      let rest = unmarked_entries m in if marked then rest else (k, v) ∷ rest

  -- `for k, v := range entries { if _, ok := del[k]; ok { replace(k) }; set(k, v); delete(del, k) }`
  unfoldable pub set_entries :
      (String → Exec Creation (Unit {0}))
      → (String → V → Exec Creation (Unit {0}))
      → Map String V
      → Map String (Unit {0})
      → Exec Creation (Map String (Unit {0}))
  set_entries replace set [] del c = (ok del, c)
  set_entries replace set ((k, v) ∷ m) del c =
      let (r, c') = (do (if has_key k del then replace k else done); set k v) c in
      let rest = set_entries replace set m (delete k del) c' in
      elim r [ ok _ ↦ rest | err e ↦ (err e, c') ]

  -- The body of the three adjustments: `remove` is the last loop's.
  unfoldable pub adjust_entries :
      (String → Exec Creation (Unit {0}))
      → (String → V → Exec Creation (Unit {0}))
      → (String → Exec Creation (Unit {0}))
      → Map String V
      → Exec Creation (Unit {0})
  adjust_entries replace set remove [] = done
  adjust_entries replace set remove (e ∷ m) = do
    del ← set_entries replace set (unmarked_entries (e ∷ m)) (removed_keys (e ∷ m))
    for_each del (λ d. remove d.0)

abbrev pub set_reply_annotation : String → String → Creation → Creation
set_reply_annotation k v c = record c {
  adjust = record c.adjust { annotations = insert k v c.adjust.annotations };
}

unfoldable pub replace_annotation : String → String → Exec Creation (Unit {0})
replace_annotation plugin k c = (
  ok tt,
  set_reply_annotation (mark_for_removal k) "" (record c {
    container = record c.container { annotations = delete k c.container.annotations };
    owners = clear_annotation c.container.id k plugin c.owners;
  }),
)

unfoldable pub set_annotation : String → String → String → Exec Creation (Unit {0})
set_annotation plugin k v = do
  id ← gets (λ c. c.container.id)
  owning (claim_annotation id k plugin)
  modify (λ c. set_reply_annotation k v (record c {
    container = record c.container { annotations = insert k v c.container.annotations };
  }))

unfoldable pub adjust_annotations : Map String String → String → Exec Creation (Unit {0})
adjust_annotations annotations plugin =
    adjust_entries (replace_annotation plugin) (set_annotation plugin)
      (λ k. modify (set_reply_annotation (mark_for_removal k) "")) annotations

-- A write to the reply's map of sysctls, which may be nil.
set_reply_sysctl : String → String → Exec Creation (Unit {0})
set_reply_sysctl k v c = elim c.adjust.linux.sysctl [
  | none ↦ (err panic, c)
  | some m ↦ (
    ok tt,
    record c {
      adjust = record c.adjust { linux = record c.adjust.linux { sysctl = some (insert k v m) } };
    },
  )
]

set_container_sysctl : String → String → Exec Creation (Unit {0})
set_container_sysctl k v c = elim c.container.linux.sysctl [
  | none ↦ (err panic, c)
  | some m ↦ (
    ok tt,
    record c {
      container = record c.container {
        linux = record c.container.linux { sysctl = some (insert k v m) };
      };
    },
  )
]

-- A delete from a nil map does nothing.
delete_container_sysctl : String → Creation → Creation
delete_container_sysctl k c = record c {
  container = record c.container {
    linux = record c.container.linux {
      sysctl = elim c.container.linux.sysctl [ none ↦ none | some m ↦ some (delete k m) ];
    };
  };
}

unfoldable pub replace_sysctl : String → String → Exec Creation (Unit {0})
unfolding set_reply_sysctl delete_container_sysctl
replace_sysctl plugin k = do
  modify (λ c. record c { owners = clear_sysctl c.container.id k plugin c.owners })
  modify (delete_container_sysctl k)
  set_reply_sysctl (mark_for_removal k) ""

unfoldable pub set_sysctl : String → String → String → Exec Creation (Unit {0})
unfolding set_reply_sysctl set_container_sysctl
set_sysctl plugin k v = do
  id ← gets (λ c. c.container.id)
  owning (claim_sysctl id k plugin)
  set_container_sysctl k v
  set_reply_sysctl k v

-- The last loop marks the key in the annotations of the reply.
unfoldable pub adjust_sysctl : Map String String → String → Exec Creation (Unit {0})
adjust_sysctl sysctl plugin =
    adjust_entries (replace_sysctl plugin) (set_sysctl plugin)
      (λ k. modify (set_reply_annotation (mark_for_removal k) "")) sysctl

abbrev set_reply_net_device : String → Option LinuxNetDevice → Creation → Creation
set_reply_net_device k v c = record c {
  adjust = record c.adjust {
    linux = record c.adjust.linux { net_devices = insert k v c.adjust.linux.net_devices };
  };
}

abbrev set_container_net_devices : Map String (Option LinuxNetDevice) → Creation → Creation
set_container_net_devices m c = record c {
  container = record c.container { linux = record c.container.linux { net_devices = m } };
}

unfoldable pub replace_net_device : String → String → Exec Creation (Unit {0})
replace_net_device plugin k c = (
  ok tt,
  set_reply_net_device (mark_for_removal k) none (
      set_container_net_devices (delete k c.container.linux.net_devices)
        (record c { owners = clear_linux_net_device c.container.id k plugin c.owners })),
)

unfoldable pub set_net_device : String → String → Option LinuxNetDevice → Exec Creation (Unit {0})
set_net_device plugin k v = do
  id ← gets (λ c. c.container.id)
  owning (claim_linux_net_device id k plugin)
  modify (λ c.
      set_reply_net_device k v
        (set_container_net_devices (insert k v c.container.linux.net_devices) c))

unfoldable pub adjust_linux_net_devices :
    Map String (Option LinuxNetDevice) → String → Exec Creation (Unit {0})
adjust_linux_net_devices devices plugin =
    adjust_entries (replace_net_device plugin) (set_net_device plugin)
      (λ k. modify (set_reply_net_device (mark_for_removal k) none)) devices
