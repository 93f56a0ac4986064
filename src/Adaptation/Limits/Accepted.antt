-- ===== src/Adaptation/Limits/Accepted.antt =====
-- Accepted resources, of an adjustment and of an update.
use nri.Base.{
  String, ◌≡◌, refl, fun_ext, subst, ◌∙◌, Option, none, some, List, [], ◌∷◌, ◌++◌, string_eq, arith,
  first_set,
}
use mathlib.Core.List.{append_assoc, append-nil}
use nri.Base.Map.{Map, insert}
use nri.Base.Exec.{Exec, for_each, ◌>>◌}
use nri.Api.Types.{LinuxMemory, LinuxCpu, LinuxPids, HugepageLimit}
use nri.Api.Field.{key, hugepage_limits, cgroups_unified, blockio_class, rdt_class, pids_limit}
use nri.Api.Owners.Spec.{simple, compound}
use nri.Api.Owners.Trace.{call}
use nri.Api.Owners.Claims.{
  claim_hugepage_limit, claim_cgroups_unified, claim_blockio_class, claim_rdt_class,
  claim_pids_limit,
}
use nri.Adaptation.State.{Resources}
use nri.Adaptation.Limits.{
  Targets, adjust_memory_resource, adjust_cpu_resource, at_memory, at_cpu, set_hugepage_limits,
  set_unified, set_blockio_class, set_rdt_class, set_pids,
}
use nri.Adaptation.Limits.Merges.{
  Applies, done-Applies, then-Applies, set_limit-Applies, merge_memory, merge_cpu,
  adjust_memory_resource-Applies, adjust_cpu_resource-Applies,
}

pub Applies-ext :
    {T : Type 0} (f g : T → T) (op : Exec (Targets T) (Unit {0}))
    → ((x : T) → f x ≡ g x)
    → Applies f op
    → Applies g op
Applies-ext f g op same = subst (λ k. Applies k op) (fun_ext same)

Applies-ext_op :
    {T : Type 0} {f : T → T} (a b : Exec (Targets T) (Unit {0}))
    → ((t : Targets T) → a t ≡ b t)
    → Applies f a
    → Applies f b
Applies-ext_op {f = f} a b same = subst (λ k. Applies f k) (fun_ext same)

-- The values of a list, one after the other.
abbrev pub apply_each : {A T : Type 0} → (A → T → T) → List A → T → T
apply_each f [] x = x
apply_each f (a ∷ as_) x = apply_each f as_ (f a x)

pub for_each-Applies :
    {A T : Type 0} (f : A → T → T) (body : A → Exec (Targets T) (Unit {0})) (xs : List A)
    → ((a : A) → Applies (f a) (body a))
    → Applies (apply_each f xs) (for_each xs body)
unfolding for_each
for_each-Applies f body [] each = done-Applies
for_each-Applies f body (x ∷ xs) each =
    Applies-ext_op (body x >> for_each xs body) (for_each (x ∷ xs) body) (λ t. ground arith)
      (then-Applies (f x) (apply_each f xs) (body x) (for_each xs body) (each x)
        (for_each-Applies f body xs each))

abbrev pub merge_optional : {L : Type 0} → (L → L → L) → Option L → L → L
merge_optional merge none old = old
merge_optional merge (some new) old = merge new old

pub at_memory-Applies :
    (f : LinuxMemory → LinuxMemory) (op : Exec (Targets LinuxMemory) (Unit {0}))
    → Applies f op
    → Applies (λ r. record r { memory = f r.memory }) (at_memory op)
unfolding at_memory
at_memory-Applies f op h t =
    let (sound, effect) = h (record {
      container = t.container.memory;
      reply = elim t.reply [ none ↦ none | some r ↦ some r.memory ];
      owners = t.owners;
    }) in
    (sound, λ granted. let (c, r) = effect granted in (cc c, ground arith))

pub at_cpu-Applies :
    (f : LinuxCpu → LinuxCpu) (op : Exec (Targets LinuxCpu) (Unit {0}))
    → Applies f op
    → Applies (λ r. record r { cpu = f r.cpu }) (at_cpu op)
unfolding at_cpu
at_cpu-Applies f op h t =
    let (sound, effect) = h (record {
      container = t.container.cpu;
      reply = elim t.reply [ none ↦ none | some r ↦ some r.cpu ];
      owners = t.owners;
    }) in
    (sound, λ granted. let (c, r) = effect granted in (cc c, ground arith))

pub memory-Applies :
    (mem : Option LinuxMemory) (id plugin : String)
    → Applies (merge_optional merge_memory mem) (adjust_memory_resource mem id plugin)
unfolding adjust_memory_resource
memory-Applies none id plugin = done-Applies
memory-Applies (some mem) id plugin = adjust_memory_resource-Applies mem id plugin

pub cpu-Applies :
    (cpu : Option LinuxCpu) (id plugin : String)
    → Applies (merge_optional merge_cpu cpu) (adjust_cpu_resource cpu id plugin)
unfolding adjust_cpu_resource
cpu-Applies none id plugin = done-Applies
cpu-Applies (some cpu) id plugin = adjust_cpu_resource-Applies cpu id plugin

pub append_each :
    {A : Type 0} (xs : List A) (r : Resources) (get : Resources → List A)
    (put : List A → Resources → Resources)
    → ((ys : List A) (r : Resources) → get (put ys r) ≡ ys)
    → ((ys zs : List A) (r : Resources) → put ys (put zs r) ≡ put ys r)
    → ((r : Resources) → put (get r) r ≡ r)
    → apply_each (λ x r. put (get r ++ x ∷ []) r) xs r ≡ put (get r ++ xs) r
append_each [] r get put read write keep = simp (append-nil (get r), keep)
append_each (x ∷ xs) r get put read write keep =
    append_each xs (put (get r ++ x ∷ []) r) get put read write keep
    ∙ simp (read, write, append_assoc)

-- The entries of `new` inserted into `old` in their order.
abbrev pub insert_all : Map String String → Map String String → Map String String
insert_all new old = apply_each (λ e m. insert e.0 e.1 m) new old

insert_each :
    (new : Map String String) (r : Resources)
    → apply_each (λ e r. record r { unified = insert e.0 e.1 r.unified }) new r
      ≡ record r { unified = insert_all new r.unified }
insert_each [] r = refl
insert_each (e ∷ new) r = insert_each new (record r { unified = insert e.0 e.1 r.unified })

pub hugepage_limits-Applies :
    (ls : List HugepageLimit) (id plugin : String)
    → Applies
        (λ r. record r { hugepage_limits = r.hugepage_limits ++ ls })
        (set_hugepage_limits ls id plugin)
unfolding set_hugepage_limits claim_hugepage_limit call
hugepage_limits-Applies ls id plugin =
    Applies-ext _ (λ r. record r { hugepage_limits = r.hugepage_limits ++ ls })
      (set_hugepage_limits ls id plugin)
      (λ r.
        append_each ls r Resources.hugepage_limits (λ ys r. record r { hugepage_limits = ys })
          (λ ys r. refl) (λ ys zs r. refl) (λ r. refl))
      (for_each-Applies (λ l r. record r { hugepage_limits = r.hugepage_limits ++ l ∷ [] }) _ ls
        λ l.
          set_limit-Applies
            (λ v r. elim v [
              | none ↦ r
              | some l ↦ record r { hugepage_limits = r.hugepage_limits ++ l ∷ [] }
            ])
            (λ l r. record r { hugepage_limits = r.hugepage_limits ++ l ∷ [] }) (some l)
            (claim_hugepage_limit id l.page_size plugin) id plugin
            (compound (key hugepage_limits) l.page_size) refl (λ x. refl) (λ v x. refl))

pub unified-Applies :
    (m : Map String String) (id plugin : String)
    → Applies (λ r. record r { unified = insert_all m r.unified }) (set_unified m id plugin)
unfolding set_unified claim_cgroups_unified call
unified-Applies m id plugin =
    Applies-ext _ (λ r. record r { unified = insert_all m r.unified }) (set_unified m id plugin)
      (insert_each m)
      (for_each-Applies (λ e r. record r { unified = insert e.0 e.1 r.unified }) _ m
        λ e.
          set_limit-Applies
            (λ v r. elim v [ none ↦ r | some e ↦ record r { unified = insert e.0 e.1 r.unified } ])
            (λ e r. record r { unified = insert e.0 e.1 r.unified }) (some e)
            (claim_cgroups_unified id e.0 plugin) id plugin (compound (key cgroups_unified) e.0)
            refl (λ x. refl) (λ v x. refl))

pub blockio_class-Applies :
    (class : Option String) (id plugin : String)
    → Applies
        (λ r. record r { blockio_class = first_set class r.blockio_class })
        (set_blockio_class class id plugin)
unfolding set_blockio_class claim_blockio_class call
blockio_class-Applies class id plugin =
    set_limit-Applies (λ v r. record r { blockio_class = first_set v r.blockio_class }) _ class
      (claim_blockio_class id plugin) id plugin (simple (key blockio_class)) refl (λ x. refl)
      (λ v x. refl)

pub rdt_class-Applies :
    (class : Option String) (id plugin : String)
    → Applies
        (λ r. record r { rdt_class = first_set class r.rdt_class })
        (set_rdt_class class id plugin)
unfolding set_rdt_class claim_rdt_class call
rdt_class-Applies class id plugin =
    set_limit-Applies (λ v r. record r { rdt_class = first_set v r.rdt_class }) _ class
      (claim_rdt_class id plugin) id plugin (simple (key rdt_class)) refl (λ x. refl) (λ v x. refl)

pub pids-Applies :
    (pids : Option LinuxPids) (id plugin : String)
    → Applies (λ r. record r { pids = first_set pids r.pids }) (set_pids pids id plugin)
unfolding set_pids claim_pids_limit call
pids-Applies pids id plugin =
    set_limit-Applies (λ v r. record r { pids = first_set v r.pids }) _ pids
      (claim_pids_limit id plugin) id plugin (simple (key pids_limit)) refl (λ x. refl)
      (λ v x. refl)
