-- ===== src/Adaptation/Limits/Merges.antt =====
-- What the adjustments of limits write: each limit that a plugin sets replaces the one that is there.
use nri.Base.{
  String, ◌≡◌, ◌≢◌, refl, sym, ap, ◌∙◌, inl, inr, Option, none, some, string_eq, arith, first_set,
}
use nri.Base.Exec.{Outcome-cases, ok, err, panic, Exec, done, ◌>>◌}
use nri.Api.Types.{LinuxMemory, LinuxCpu}
use nri.Api.Owners.{OwningPlugins}
use nri.Api.Field.{
  Field, key, mem_limit, mem_reservation, mem_swap_limit, mem_kernel_limit, mem_tcp_limit,
  mem_swappiness, mem_disable_oom_killer, mem_use_hierarchy, cpu_shares, cpu_quota, cpu_period,
  cpu_realtime_runtime, cpu_realtime_period, cpu_set_cpus, cpu_set_mems,
}
use nri.Api.Owners.Spec.{Place, simple}
use nri.Api.Owners.Claims.{
  claim_mem_limit, claim_mem_reservation, claim_mem_swap_limit, claim_mem_kernel_limit,
  claim_mem_tcp_limit, claim_mem_swappiness, claim_mem_disable_oom_killer, claim_mem_use_hierarchy,
  claim_cpu_shares, claim_cpu_quota, claim_cpu_period, claim_cpu_realtime_runtime,
  claim_cpu_realtime_period, claim_cpu_set_cpus, claim_cpu_set_mems,
}
use nri.Api.Owners.Trace.{claiming, call, call-result}
use nri.Adaptation.State.{or_else}
use nri.Adaptation.Limits.{
  Targets, set_limit, non_empty, adjust_memory_resource, adjust_cpu_resource,
}

abbrev pub in_reply : {T : Type 0} → (T → T) → Option T → Option T
in_reply f none = none
in_reply f (some r) = some (f r)

-- An operation that never panics and, if it is accepted, changes both targets by a function.
abbrev pub Applies : {T : Type 0} → (T → T) → Exec (Targets T) (Unit {0}) → Type 0
Applies {T} f op =
    (t : Targets T)
    → ((op t).0 ≢ err panic)
      × ((op t).0 ≡ ok tt
          → ((op t).1.container ≡ f t.container) × ((op t).1.reply ≡ in_reply f t.reply))

in_reply_twice :
    {T : Type 0} (f g : T → T) (r : Option T)
    → in_reply g (in_reply f r) ≡ in_reply (λ x. g (f x)) r
in_reply_twice f g none = refl
in_reply_twice f g (some r) = refl

in_reply_same : {T : Type 0} (r : Option T) → in_reply (λ x. x) r ≡ r
in_reply_same none = refl
in_reply_same (some r) = refl

pub done-Applies : {T : Type 0} → Applies {T = T} (λ x. x) done
done-Applies t = (ground arith, λ _. (refl, cc (in_reply_same t.reply)))

pub then-Applies :
    {T : Type 0} (f g : T → T) (a b : Exec (Targets T) (Unit {0}))
    → Applies f a
    → Applies g b
    → Applies (λ x. g (f x)) (a >> b)
then-Applies f g a b ha hb t = elim (Outcome-cases (a t).0) [
  | inl (u, fine) ↦
      let (c, r) = (ha t).1 fine in
      rw fine (
        (hb (a t).1).0,
        λ h.
            let (c', r') = (hb (a t).1).1 h in (cc (c, c'), cc (r, r', in_reply_twice f g t.reply)),
      )
  | inr (e, failed) ↦
      let sound = (ha t).0 in rw failed ((let s = sound in rw failed at s), λ h. ground arith)
]

claim-ne-panic :
    (id plugin : String) (p : Place) (o : OwningPlugins)
    → (call (claiming id p plugin) o).0 ≢ err panic
claim-ne-panic id plugin p o = rw (call-result (claiming id p plugin) o) (ground arith)

in_reply_ext :
    {T : Type 0} (f g : T → T) (r : Option T) → ((x : T) → f x ≡ g x) → in_reply f r ≡ in_reply g r
in_reply_ext f g none same = refl
in_reply_ext f g (some r) same = cc (same r)

-- A limit that is set at one place of the owners: `put` is what happens to a target.
module _ {T V : Type 0} (put : Option V → T → T) (set : V → T → T) where
  pub set_limit-Applies :
      (v : Option V) (claim : Exec OwningPlugins (Unit {0})) (id plugin : String) (p : Place)
      → claim ≡ call (claiming id p plugin)
      → ((x : T) → x ≡ put none x)
      → ((v : V) (x : T) → set v x ≡ put (some v) x)
      → Applies (put v) (set_limit v claim set)
  unfolding set_limit
  set_limit-Applies none claim id plugin p e keeps sets t = (
    ground arith,
    λ h. (
      keeps t.container,
      sym (in_reply_same t.reply) ∙ in_reply_ext (λ x. x) (put none) t.reply keeps,
    ),
  )
  set_limit-Applies (some v) claim id plugin p e keeps sets t =
      elim (Outcome-cases (claim t.owners).0) [
        | inl (u, fine) ↦
            rw (fine, set_limit)
              (
                ground arith,
                λ h. (sets v t.container, in_reply_ext (set v) (put (some v)) t.reply (sets v)),
              )
        | inr (x, failed) ↦
            rw (failed, set_limit)
              (
                (λ q.
                    claim-ne-panic id plugin p t.owners
                      (ap (λ k. (k t.owners).0) (sym e) ∙ (failed ∙ q))),
                λ h. ground arith,
              )
      ]

-- The limits of `new` that are set, and those of `old` elsewhere.
abbrev pub merge_memory : LinuxMemory → LinuxMemory → LinuxMemory
merge_memory new old = record {
  limit = first_set new.limit old.limit;
  reservation = first_set new.reservation old.reservation;
  swap = first_set new.swap old.swap;
  kernel = first_set new.kernel old.kernel;
  kernel_tcp = first_set new.kernel_tcp old.kernel_tcp;
  swappiness = first_set new.swappiness old.swappiness;
  disable_oom_killer = first_set new.disable_oom_killer old.disable_oom_killer;
  use_hierarchy = first_set new.use_hierarchy old.use_hierarchy;
}

abbrev at_field : Field → Place
at_field f = simple (key f)

pub adjust_memory_resource-Applies :
    (mem : LinuxMemory) (id plugin : String)
    → Applies (merge_memory mem) (adjust_memory_resource (some mem) id plugin)
unfolding adjust_memory_resource claim_mem_limit claim_mem_reservation claim_mem_swap_limit
    claim_mem_kernel_limit claim_mem_tcp_limit claim_mem_swappiness claim_mem_disable_oom_killer
    claim_mem_use_hierarchy call
adjust_memory_resource-Applies mem id plugin =
    then-Applies _ _ _ _
      (set_limit-Applies (λ v m. record m { limit = first_set v m.limit })
        (λ v m. record m { limit = some v }) mem.limit (claim_mem_limit id plugin) id plugin
        (at_field mem_limit) refl (λ x. refl) (λ v x. refl))
      (then-Applies _ _ _ _
        (set_limit-Applies (λ v m. record m { reservation = first_set v m.reservation })
          (λ v m. record m { reservation = some v }) mem.reservation
          (claim_mem_reservation id plugin) id plugin (at_field mem_reservation) refl (λ x. refl)
          (λ v x. refl))
        (then-Applies _ _ _ _
          (set_limit-Applies (λ v m. record m { swap = first_set v m.swap })
            (λ v m. record m { swap = some v }) mem.swap (claim_mem_swap_limit id plugin) id plugin
            (at_field mem_swap_limit) refl (λ x. refl) (λ v x. refl))
          (then-Applies _ _ _ _
            (set_limit-Applies (λ v m. record m { kernel = first_set v m.kernel })
              (λ v m. record m { kernel = some v }) mem.kernel (claim_mem_kernel_limit id plugin) id
              plugin (at_field mem_kernel_limit) refl (λ x. refl) (λ v x. refl))
            (then-Applies _ _ _ _
              (set_limit-Applies (λ v m. record m { kernel_tcp = first_set v m.kernel_tcp })
                (λ v m. record m { kernel_tcp = some v }) mem.kernel_tcp
                (claim_mem_tcp_limit id plugin) id plugin (at_field mem_tcp_limit) refl (λ x. refl)
                (λ v x. refl))
              (then-Applies _ _ _ _
                (set_limit-Applies (λ v m. record m { swappiness = first_set v m.swappiness })
                  (λ v m. record m { swappiness = some v }) mem.swappiness
                  (claim_mem_swappiness id plugin) id plugin (at_field mem_swappiness) refl
                  (λ x. refl) (λ v x. refl))
                (then-Applies _ _ _ _
                  (set_limit-Applies
                    (λ v m. record m { disable_oom_killer = first_set v m.disable_oom_killer })
                    (λ v m. record m { disable_oom_killer = some v }) mem.disable_oom_killer
                    (claim_mem_disable_oom_killer id plugin) id plugin
                    (at_field mem_disable_oom_killer) refl (λ x. refl) (λ v x. refl))
                  ((set_limit-Applies
                    (λ v m. record m { use_hierarchy = first_set v m.use_hierarchy })
                    (λ v m. record m { use_hierarchy = some v }) mem.use_hierarchy
                    (claim_mem_use_hierarchy id plugin) id plugin (at_field mem_use_hierarchy) refl
                    (λ x. refl) (λ v x. refl)))))))))

-- The limits of `new` that are set, and those of `old` elsewhere; an empty string is not set.
abbrev pub merge_cpu : LinuxCpu → LinuxCpu → LinuxCpu
merge_cpu new old = record {
  shares = first_set new.shares old.shares;
  quota = first_set new.quota old.quota;
  period = first_set new.period old.period;
  realtime_runtime = first_set new.realtime_runtime old.realtime_runtime;
  realtime_period = first_set new.realtime_period old.realtime_period;
  cpus = or_else (non_empty new.cpus) old.cpus;
  mems = or_else (non_empty new.mems) old.mems;
}

pub adjust_cpu_resource-Applies :
    (cpu : LinuxCpu) (id plugin : String)
    → Applies (merge_cpu cpu) (adjust_cpu_resource (some cpu) id plugin)
unfolding adjust_cpu_resource claim_cpu_shares claim_cpu_quota claim_cpu_period
    claim_cpu_realtime_runtime claim_cpu_realtime_period claim_cpu_set_cpus claim_cpu_set_mems call
adjust_cpu_resource-Applies cpu id plugin =
    then-Applies _ _ _ _
      (set_limit-Applies (λ v c. record c { shares = first_set v c.shares })
        (λ v c. record c { shares = some v }) cpu.shares (claim_cpu_shares id plugin) id plugin
        (at_field cpu_shares) refl (λ x. refl) (λ v x. refl))
      (then-Applies _ _ _ _
        (set_limit-Applies (λ v c. record c { quota = first_set v c.quota })
          (λ v c. record c { quota = some v }) cpu.quota (claim_cpu_quota id plugin) id plugin
          (at_field cpu_quota) refl (λ x. refl) (λ v x. refl))
        (then-Applies _ _ _ _
          (set_limit-Applies (λ v c. record c { period = first_set v c.period })
            (λ v c. record c { period = some v }) cpu.period (claim_cpu_period id plugin) id plugin
            (at_field cpu_period) refl (λ x. refl) (λ v x. refl))
          (then-Applies _ _ _ _
            (set_limit-Applies
              (λ v c. record c { realtime_runtime = first_set v c.realtime_runtime })
              (λ v c. record c { realtime_runtime = some v }) cpu.realtime_runtime
              (claim_cpu_realtime_runtime id plugin) id plugin (at_field cpu_realtime_runtime) refl
              (λ x. refl) (λ v x. refl))
            (then-Applies _ _ _ _
              (set_limit-Applies
                (λ v c. record c { realtime_period = first_set v c.realtime_period })
                (λ v c. record c { realtime_period = some v }) cpu.realtime_period
                (claim_cpu_realtime_period id plugin) id plugin (at_field cpu_realtime_period) refl
                (λ x. refl) (λ v x. refl))
              (then-Applies _ _ _ _
                (set_limit-Applies (λ v c. record c { cpus = or_else v c.cpus })
                  (λ v c. record c { cpus = v }) (non_empty cpu.cpus) (claim_cpu_set_cpus id plugin)
                  id plugin (at_field cpu_set_cpus) refl (λ x. refl) (λ v x. refl))
                ((set_limit-Applies (λ v c. record c { mems = or_else v c.mems })
                  (λ v c. record c { mems = v }) (non_empty cpu.mems) (claim_cpu_set_mems id plugin)
                  id plugin (at_field cpu_set_mems) refl (λ x. refl) (λ v x. refl))))))))
