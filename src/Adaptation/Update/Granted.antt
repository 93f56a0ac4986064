-- ===== src/Adaptation/Update/Granted.antt =====
-- What the adjustments and updates of limits (pkg/adaptation/result.go) do to the owners, also where they
-- are refused.
use nri.Base.{
  String, ◌≡◌, refl, sym, ◌∙◌, subst, ◌⊎◌, inl, inr, Option, none, some, Option-cases, List, [],
  ◌∷◌, eq_iff, string_eq, arith, fun_ext,
}
use nri.Base.Exec.{Error, Outcome-cases, ok, err, Exec, for_each, done, ◌>>◌}
use nri.Api.Types.{LinuxMemory, LinuxCpu, LinuxResources}
use nri.Api.Owners.{OwningPlugins}
use nri.Api.Field.{
  key, mem_limit, mem_reservation, mem_swap_limit, mem_kernel_limit, mem_tcp_limit, mem_swappiness,
  mem_disable_oom_killer, mem_use_hierarchy, cpu_shares, cpu_quota, cpu_period,
  cpu_realtime_runtime, cpu_realtime_period, cpu_set_cpus, cpu_set_mems, hugepage_limits,
  cgroups_unified, blockio_class, rdt_class, pids_limit,
}
use nri.Api.Owners.Spec.{Place, place_eq, place_beq_iff, simple, compound, owned, blocker, error_at}
use nri.Api.Owners.Refines.{IsName}
use nri.Api.Owners.Trace.{claiming, call, call-result, call-slots, view_all}
use nri.Api.Owners.Claims.{
  claim_mem_limit, claim_mem_reservation, claim_mem_swap_limit, claim_mem_kernel_limit,
  claim_mem_tcp_limit, claim_mem_swappiness, claim_mem_disable_oom_killer, claim_mem_use_hierarchy,
  claim_cpu_shares, claim_cpu_quota, claim_cpu_period, claim_cpu_realtime_runtime,
  claim_cpu_realtime_period, claim_cpu_set_cpus, claim_cpu_set_mems, claim_hugepage_limit,
  claim_cgroups_unified, claim_blockio_class, claim_rdt_class, claim_pids_limit,
}
use nri.Adaptation.Update.{update_targets}
use nri.Adaptation.Limits.{
  Targets, set_limit, adjust_memory_resource, adjust_cpu_resource, at_memory, at_cpu, non_empty,
  set_hugepage_limits, set_unified, set_blockio_class, set_rdt_class, set_pids,
}

module _ (id plugin : String) where
  -- Some places of the container that nobody stood in the way of belong to the plugin now; all others
  -- are as they were, in every container.
  abbrev pub OnlyClaims : OwningPlugins → OwningPlugins → Type 0
  OnlyClaims o o' =
      (j : String) (q : Place)
      → (view_all o' j q ≡ view_all o j q)
        ⊎ ((j ≡ id) × (blocker plugin (view_all o j q) ≡ none) × (view_all o' j q ≡ owned plugin))

  -- The error names a place of the container and the plugin that stands in the way there.
  abbrev pub Blames : Error → OwningPlugins → Type 0
  Blames e o =
      (p : Place) × (owner : String) × (e ≡ error_at p plugin owner)
      × (blocker plugin (view_all o id p) ≡ some owner)

  abbrev pub Grants : {T : Type 0} → Exec (Targets T) (Unit {0}) → Type 0
  Grants {T} op =
      (t : Targets T)
      → OnlyClaims t.owners (op t).1.owners
        × ((e : Error) → (op t).0 ≡ err e → Blames e (op t).1.owners)

  OnlyClaims-refl : (o : OwningPlugins) → OnlyClaims o o
  OnlyClaims-refl o j q = inl refl

  OnlyClaims-trans :
      (o₁ o₂ o₃ : OwningPlugins) → OnlyClaims o₁ o₂ → OnlyClaims o₂ o₃ → OnlyClaims o₁ o₃
  OnlyClaims-trans o₁ o₂ o₃ h k j q = ground (arith, h j q, k j q)

  pub done-Grants : {T : Type 0} → Grants {T = T} done
  done-Grants t = (OnlyClaims-refl t.owners, λ e h. ground arith)

  pub then-Grants :
      {T : Type 0} (a b : Exec (Targets T) (Unit {0})) → Grants a → Grants b → Grants (a >> b)
  then-Grants a b ha hb t = elim (Outcome-cases (a t).0) [
    | inl (u, fine) ↦ rw fine (
      OnlyClaims-trans t.owners (a t).1.owners (b (a t).1).1.owners (ha t).0 (hb (a t).1).0,
      (hb (a t).1).1,
    )
    | inr (x, failed) ↦ rw failed ((ha t).0, λ e h. (ha t).1 e (failed ∙ h))
  ]

  module _ (name : IsName plugin) where
    call-OnlyClaims :
        (p : Place) (o : OwningPlugins) → OnlyClaims o (call (claiming id p plugin) o).1
    call-OnlyClaims p o j q =
        rw (call-slots (claiming id p plugin) o name j q)
          (ground (arith, eq_iff id j, place_beq_iff p q))

    call-Blames :
        (p : Place) (o : OwningPlugins) (e : Error)
        → (call (claiming id p plugin) o).0 ≡ err e
        → Blames e (call (claiming id p plugin) o).1
    call-Blames p o e h = elim (Option-cases (blocker plugin (view_all o id p))) [
      | inl nobody ↦
          let granted : (call (claiming id p plugin) o).0 ≡ ok tt =
            rw (call-result (claiming id p plugin) o) (ground arith) in
          absurd (let both = sym granted ∙ h in ground arith)
      | inr (other, blocks) ↦
          let refused : (call (claiming id p plugin) o).0 ≡ err (error_at p plugin other) =
            rw (call-result (claiming id p plugin) o) (ground arith) in
          let both = sym refused ∙ h in
          (
            p,
            other,
            ground arith,
            rw (call-slots (claiming id p plugin) o name id p) (ground (arith, eq_iff id id)),
          )
    ]

    pub set_limit-Grants :
        {T V : Type 0} (v : Option V) (claim : Exec OwningPlugins (Unit {0})) (set : V → T → T)
        (p : Place)
        → claim ≡ call (claiming id p plugin)
        → Grants (set_limit v claim set)
    unfolding set_limit
    set_limit-Grants none claim set p e t = done-Grants t
    set_limit-Grants (some v) claim set p e t =
        let only : OnlyClaims t.owners (claim t.owners).1 =
          subst (λ k. OnlyClaims t.owners (k t.owners).1) (sym e) (call-OnlyClaims p t.owners) in
        let blames : (x : Error) → (claim t.owners).0 ≡ err x → Blames x (claim t.owners).1 =
          subst (λ k. (x : Error) → (k t.owners).0 ≡ err x → Blames x (k t.owners).1) (sym e)
            (call-Blames p t.owners) in
        elim (Outcome-cases (claim t.owners).0) [
          | inl (u, fine) ↦ rw (fine, set_limit) (only, λ x h. ground arith)
          | inr (y, failed) ↦ rw (failed, set_limit) (only, λ x h. blames x (failed ∙ h))
        ]

    memory-Grants : (mem : Option LinuxMemory) → Grants (adjust_memory_resource mem id plugin)
    unfolding adjust_memory_resource claim_mem_limit claim_mem_reservation claim_mem_swap_limit
        claim_mem_kernel_limit claim_mem_tcp_limit claim_mem_swappiness claim_mem_disable_oom_killer
        claim_mem_use_hierarchy call
    memory-Grants none = done-Grants
    memory-Grants (some mem) =
        then-Grants _ _
          (set_limit-Grants mem.limit (claim_mem_limit id plugin)
            (λ v m. record m { limit = some v }) (simple (key mem_limit)) refl)
          (then-Grants _ _
            (set_limit-Grants mem.reservation (claim_mem_reservation id plugin)
              (λ v m. record m { reservation = some v }) (simple (key mem_reservation)) refl)
            (then-Grants _ _
              (set_limit-Grants mem.swap (claim_mem_swap_limit id plugin)
                (λ v m. record m { swap = some v }) (simple (key mem_swap_limit)) refl)
              (then-Grants _ _
                (set_limit-Grants mem.kernel (claim_mem_kernel_limit id plugin)
                  (λ v m. record m { kernel = some v }) (simple (key mem_kernel_limit)) refl)
                (then-Grants _ _
                  (set_limit-Grants mem.kernel_tcp (claim_mem_tcp_limit id plugin)
                    (λ v m. record m { kernel_tcp = some v }) (simple (key mem_tcp_limit)) refl)
                  (then-Grants _ _
                    (set_limit-Grants mem.swappiness (claim_mem_swappiness id plugin)
                      (λ v m. record m { swappiness = some v }) (simple (key mem_swappiness)) refl)
                    (then-Grants _ _
                      (set_limit-Grants mem.disable_oom_killer
                        (claim_mem_disable_oom_killer id plugin)
                        (λ v m. record m { disable_oom_killer = some v })
                        (simple (key mem_disable_oom_killer)) refl)
                      (set_limit-Grants mem.use_hierarchy (claim_mem_use_hierarchy id plugin)
                        (λ v m. record m { use_hierarchy = some v })
                        (simple (key mem_use_hierarchy)) refl)))))))

    cpu-Grants : (cpu : Option LinuxCpu) → Grants (adjust_cpu_resource cpu id plugin)
    unfolding adjust_cpu_resource claim_cpu_shares claim_cpu_quota claim_cpu_period
        claim_cpu_realtime_runtime claim_cpu_realtime_period claim_cpu_set_cpus claim_cpu_set_mems
        call
    cpu-Grants none = done-Grants
    cpu-Grants (some cpu) =
        then-Grants _ _
          (set_limit-Grants cpu.shares (claim_cpu_shares id plugin)
            (λ v c. record c { shares = some v }) (simple (key cpu_shares)) refl)
          (then-Grants _ _
            (set_limit-Grants cpu.quota (claim_cpu_quota id plugin)
              (λ v c. record c { quota = some v }) (simple (key cpu_quota)) refl)
            (then-Grants _ _
              (set_limit-Grants cpu.period (claim_cpu_period id plugin)
                (λ v c. record c { period = some v }) (simple (key cpu_period)) refl)
              (then-Grants _ _
                (set_limit-Grants cpu.realtime_runtime (claim_cpu_realtime_runtime id plugin)
                  (λ v c. record c { realtime_runtime = some v })
                  (simple (key cpu_realtime_runtime)) refl)
                (then-Grants _ _
                  (set_limit-Grants cpu.realtime_period (claim_cpu_realtime_period id plugin)
                    (λ v c. record c { realtime_period = some v })
                    (simple (key cpu_realtime_period)) refl)
                  (then-Grants _ _
                    (set_limit-Grants (non_empty cpu.cpus) (claim_cpu_set_cpus id plugin)
                      (λ v c. record c { cpus = v }) (simple (key cpu_set_cpus)) refl)
                    (set_limit-Grants (non_empty cpu.mems) (claim_cpu_set_mems id plugin)
                      (λ v c. record c { mems = v }) (simple (key cpu_set_mems)) refl))))))

  at_memory-Grants :
      (op : Exec (Targets LinuxMemory) (Unit {0})) → Grants op → Grants (at_memory op)
  unfolding at_memory
  at_memory-Grants op h t = h (record {
    container = t.container.memory;
    reply = elim t.reply [ none ↦ none | some r ↦ some r.memory ];
    owners = t.owners;
  })

  at_cpu-Grants : (op : Exec (Targets LinuxCpu) (Unit {0})) → Grants op → Grants (at_cpu op)
  unfolding at_cpu
  at_cpu-Grants op h t = h (record {
    container = t.container.cpu;
    reply = elim t.reply [ none ↦ none | some r ↦ some r.cpu ];
    owners = t.owners;
  })

  Grants-ext :
      {T : Type 0} (a b : Exec (Targets T) (Unit {0}))
      → ((t : Targets T) → a t ≡ b t)
      → Grants a
      → Grants b
  Grants-ext a b same = subst Grants (fun_ext same)

  for_each-Grants :
      {A T : Type 0} (body : A → Exec (Targets T) (Unit {0})) (xs : List A)
      → ((a : A) → Grants (body a))
      → Grants (for_each xs body)
  unfolding for_each
  for_each-Grants body [] each = done-Grants
  for_each-Grants body (x ∷ xs) each =
      Grants-ext (body x >> for_each xs body) (for_each (x ∷ xs) body) (λ t. ground arith)
        (then-Grants (body x) (for_each xs body) (each x) (for_each-Grants body xs each))

  -- Whether an update of the limits of a container is accepted or refused, only the plugin that asks for
  -- it owns more than before, and a refusal names the plugin in the way.
  pub update_targets-Grants :
      (res : LinuxResources) → IsName plugin → Grants (update_targets res id plugin)
  unfolding update_targets set_hugepage_limits set_unified set_blockio_class set_rdt_class set_pids
      claim_hugepage_limit claim_cgroups_unified claim_blockio_class claim_rdt_class
      claim_pids_limit call
  update_targets-Grants res name =
      then-Grants _ _ (at_memory-Grants _ (memory-Grants name res.memory)) (
        then-Grants _ _ (at_cpu-Grants _ (cpu-Grants name res.cpu)) (
          then-Grants _ _
            (for_each-Grants _ res.hugepage_limits λ l.
              set_limit-Grants name (some l) (claim_hugepage_limit id l.page_size plugin) _
                (compound (key hugepage_limits) l.page_size) refl)
            (then-Grants _ _
              (for_each-Grants _ res.unified λ e.
                set_limit-Grants name (some e) (claim_cgroups_unified id e.0 plugin) _
                  (compound (key cgroups_unified) e.0) refl)
              (then-Grants _ _
                (set_limit-Grants name res.blockio_class (claim_blockio_class id plugin) _
                  (simple (key blockio_class)) refl)
                (then-Grants _ _
                  (set_limit-Grants name res.rdt_class (claim_rdt_class id plugin) _
                    (simple (key rdt_class)) refl)
                  (λ t.
                    set_limit-Grants name t.container.pids (claim_pids_limit id plugin) _
                      (simple (key pids_limit)) refl t))))))
