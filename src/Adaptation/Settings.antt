-- ===== src/Adaptation/Settings.antt =====
-- The adjustments of single settings (pkg/adaptation/result.go): arguments, hooks, and the settings
-- that are claimed and copied to the container and to the reply.
pub mod Outcomes
use nri.Base.{
  String, Bool, true, false, ◌||◌, not, Option, none, some, List, [], ◌∷◌, ◌++◌, ◌==◌, string_eq,
  if◌then◌else◌,
}
use nri.Base.Int.{ℤ}
use nri.Base.Exec.{Outcome, ok, err, Exec, done, gets, modify, ◌>>=◌, ◌>>◌}
use nri.Api.Types.{Hook, Hooks, LinuxIoPriority, LinuxSeccomp, LinuxScheduler, LinuxRdt}
use nri.Api.Owners.{OwningPlugins}
use nri.Api.Owners.Claims.{
  claim_args, clear_args, claim_hooks, claim_cgroups_path, claim_oom_score_adj, claim_io_priority,
  claim_seccomp_policy, claim_linux_scheduler, clear_rdt, claim_rdt_clos_id, claim_rdt_schemata,
  claim_rdt_enable_monitoring,
}
use nri.Adaptation.State.{Creation, CollectedLinux, AdjustmentLinux, with_owners}
use nri.Adaptation.Lists.{owning}

abbrev set_args : List String → Creation → Creation
set_args args c = record c {
  adjust = record c.adjust { args = args };
  container = record c.container { args = args };
}

-- An empty first argument asks to replace what another plugin has set.
unfoldable pub adjust_args : List String → String → Exec Creation (Unit {0})
adjust_args [] plugin = done
adjust_args (arg ∷ args) plugin = do
  id ← gets (λ c. c.container.id)
  (if arg == "" then modify (with_owners (clear_args id plugin)) else done)
  owning (claim_args id plugin)
  modify (set_args (if arg == "" then args else arg ∷ args))

unfoldable pub append_hooks : Hooks → Hooks → Hooks
append_hooks h k = record {
  prestart = h.prestart ++ k.prestart;
  create_runtime = h.create_runtime ++ k.create_runtime;
  create_container = h.create_container ++ k.create_container;
  start_container = h.start_container ++ k.start_container;
  poststart = h.poststart ++ k.poststart;
  poststop = h.poststop ++ k.poststop;
}

abbrev pub is_set : List Hook → Bool
is_set [] = false
is_set (h ∷ hs) = true

-- Whether any list of hooks has an entry, and the hooks are claimed.
any_hook : Hooks → Bool
any_hook h =
    is_set h.prestart
    || (is_set h.poststart
        || (is_set h.poststop
            || (is_set h.create_runtime
                || (is_set h.create_container || is_set h.start_container))))

-- Each list is appended if it has an entry, which is to append it. The claim's error is dropped.
unfoldable pub adjust_hooks : Option Hooks → String → Exec Creation (Unit {0})
unfolding append_hooks any_hook
adjust_hooks none plugin c = (ok tt, c)
adjust_hooks (some h) plugin c = (
  ok tt,
  record c {
    adjust = record c.adjust { hooks = append_hooks c.adjust.hooks h };
    container = record c.container { hooks = append_hooks c.container.hooks h };
    owners = if any_hook h then (claim_hooks c.container.id plugin c.owners).1 else c.owners;
  },
)

-- `if v == nil { return nil }; if err := claim; err != nil { return err }; container.X, reply.X = v, v`
abbrev claim_and_set :
    {V : Type 0}
    → Option V
    → (String → Exec OwningPlugins (Unit {0}))
    → (V → CollectedLinux → CollectedLinux)
    → (V → AdjustmentLinux → AdjustmentLinux)
    → Exec Creation (Unit {0})
claim_and_set none claim set_container set_reply = done
claim_and_set (some v) claim set_container set_reply = do
  id ← gets (λ c. c.container.id)
  owning (claim id)
  modify (λ c. record c {
    container = record c.container { linux = set_container v c.container.linux };
    adjust = record c.adjust { linux = set_reply v c.adjust.linux };
  })

unfoldable pub adjust_cgroups_path : String → String → Exec Creation (Unit {0})
adjust_cgroups_path path plugin =
    claim_and_set (if path == "" then none else some path) (λ id. claim_cgroups_path id plugin)
      (λ v l. record l { cgroups_path = v }) (λ v l. record l { cgroups_path = v })

unfoldable pub adjust_oom_score_adj : Option ℤ → String → Exec Creation (Unit {0})
adjust_oom_score_adj score plugin =
    claim_and_set score (λ id. claim_oom_score_adj id plugin)
      (λ v l. record l { oom_score_adj = some v }) (λ v l. record l { oom_score_adj = some v })

unfoldable pub adjust_io_priority : Option LinuxIoPriority → String → Exec Creation (Unit {0})
adjust_io_priority priority plugin =
    claim_and_set priority (λ id. claim_io_priority id plugin)
      (λ v l. record l { io_priority = some v }) (λ v l. record l { io_priority = some v })

unfoldable pub adjust_seccomp_policy : Option LinuxSeccomp → String → Exec Creation (Unit {0})
adjust_seccomp_policy adjustment plugin =
    claim_and_set adjustment (λ id. claim_seccomp_policy id plugin)
      (λ v l. record l { seccomp_policy = some v }) (λ v l. record l { seccomp_policy = some v })

unfoldable pub adjust_linux_scheduler : Option LinuxScheduler → String → Exec Creation (Unit {0})
adjust_linux_scheduler sch plugin =
    claim_and_set sch (λ id. claim_linux_scheduler id plugin)
      (λ v l. record l { scheduler = some v }) (λ v l. record l { scheduler = some v })

abbrev pub no_rdt : LinuxRdt
no_rdt = record { clos_id = none; schemata = none; enable_monitoring = none; remove = false }

abbrev pub removed_rdt : LinuxRdt
removed_rdt = record { clos_id = none; schemata = none; enable_monitoring = none; remove = true }

abbrev set_rdt : Option LinuxRdt → Creation → Creation
set_rdt rdt c = record c {
  adjust = record c.adjust { linux = record c.adjust.linux { rdt = rdt } };
}

-- `initAdjustRdt`; the adjustment and its `Linux` are there already.
unfoldable pub init_adjust_rdt : Creation → Creation
init_adjust_rdt c = elim c.adjust.linux.rdt [ none ↦ set_rdt (some no_rdt) c | some _ ↦ c ]

abbrev pub get_rdt : Creation → LinuxRdt
get_rdt c = elim c.adjust.linux.rdt [ none ↦ no_rdt | some r ↦ r ]

-- A value of the plugin's, its claim, and the field of the reply's `Rdt` that it sets.
abbrev set_rdt_value :
    {V : Type 0}
    → Option V
    → (String → Exec OwningPlugins (Unit {0}))
    → (V → LinuxRdt → LinuxRdt)
    → Exec Creation (Unit {0})
set_rdt_value none claim set = done
set_rdt_value (some v) claim set = do
  id ← gets (λ c. c.container.id)
  owning (claim id)
  modify (λ c. set_rdt (some (record (set v (get_rdt c)) { remove = false })) c)

-- The receiver `rdt.Get…` may be nil: its values are then unset.
unfoldable pub rdt_or_nil : Option LinuxRdt → LinuxRdt
rdt_or_nil none = no_rdt
rdt_or_nil (some rdt) = rdt

unfoldable pub adjust_rdt : Option LinuxRdt → String → Exec Creation (Unit {0})
unfolding init_adjust_rdt rdt_or_nil
adjust_rdt rdt plugin = do
  modify init_adjust_rdt
  id ← gets (λ c. c.container.id)
  let r = rdt_or_nil rdt
  (if r.remove
      then modify (λ c. set_rdt (some removed_rdt) (with_owners (clear_rdt id plugin) c))
      else done)
  set_rdt_value r.clos_id (λ id. claim_rdt_clos_id id plugin) (λ v r. record r { clos_id = some v })
  set_rdt_value r.schemata (λ id. claim_rdt_schemata id plugin)
      (λ v r. record r { schemata = some v })
  set_rdt_value r.enable_monitoring (λ id. claim_rdt_enable_monitoring id plugin)
      (λ v r. record r { enable_monitoring = some v })
