-- ===== src/Adaptation/Registration/Tests.antt =====
-- The theorems about the registration of plugins with an insertion sort, at two plugins.
use mathlib.Core.List.{Perm}
use mathlib.Core.List.Perm
use nri.Base.{
  ℕ, ◌≡◌, ◌≢◌, refl, String, Bool, true, false, Bool-cases, inl, inr, none, List, [], ◌∷◌, All,
  All-mono, arith, if◌then◌else◌, keep,
}
use nri.Adaptation.Relay.{PluginApi, Plugin, Call, answered}
use nri.Adaptation.Requests.{Runtime, update_pod_sandbox}
use nri.Adaptation.Requests.Ordering.{Ordered}
use nri.Adaptation.Registration.{IsOrder, SortSlice, accept_plugin, register_plugin, string_ltb}
use nri.Adaptation.Registration.InOrder.{IsInOrder}
use nri.Adaptation.Registration.Accepted.{IsRegistered, accept_plugin-IsRegistered}
use nri.Adaptation.Registration.Order.{
  register_at, updating_pod, accepting, Reachable, starting, stepping, Reachable-IsInOrder,
}

module _ (less : ℕ → ℕ → Bool) where
  insert_one : ℕ → List ℕ → List ℕ
  insert_one x [] = x ∷ []
  insert_one x (y ∷ ys) = let rest = insert_one x ys in if less y x then y ∷ rest else x ∷ y ∷ ys

  insertion_sort : List ℕ → List ℕ
  insertion_sort [] = []
  insertion_sort (x ∷ xs) = insert_one x (insertion_sort xs)

  insert_one-Perm : (x : ℕ) (ys : List ℕ) → Perm (insert_one x ys) (x ∷ ys)
  unfolding insert_one
  insert_one-Perm x [] = Perm.refl (x ∷ [])
  insert_one-Perm x (y ∷ ys) = elim (Bool-cases (less y x)) [
    | inl later ↦ rw later (Perm.trans (Perm.cons y (insert_one-Perm x ys)) (Perm.swap x y ys))
    | inr here ↦ rw here (Perm.refl (x ∷ y ∷ ys))
  ]

  insertion_sort-Perm : (xs : List ℕ) → Perm (insertion_sort xs) xs
  unfolding insertion_sort
  insertion_sort-Perm [] = Perm.nil
  insertion_sort-Perm (x ∷ xs) =
      Perm.trans (insert_one-Perm x (insertion_sort xs)) (Perm.cons x (insertion_sort-Perm xs))

  All-insert_one : (P : ℕ → Type 0) (x : ℕ) (ys : List ℕ) → P x → All P ys → All P (insert_one x ys)
  unfolding insert_one
  All-insert_one P x [] p h = (p, tt)
  All-insert_one P x (y ∷ ys) p h = elim (Bool-cases (less y x)) [
    | inl later ↦ rw later (h.0, All-insert_one P x ys p h.1)
    | inr here ↦ rw here (p, h)
  ]

  insert_one-Ordered :
      (order : IsOrder less) (x : ℕ) (ys : List ℕ)
      → Ordered (λ a b. less b a ≡ false) ys
      → Ordered (λ a b. less b a ≡ false) (insert_one x ys)
  unfolding insert_one
  insert_one-Ordered order x [] h = (tt, tt)
  insert_one-Ordered order x (y ∷ ys) h = elim (Bool-cases (less y x)) [
    | inl later ↦ rw later (
      All-insert_one (λ b. less b y ≡ false) x ys (order.asymmetric y x later) h.0,
      insert_one-Ordered order x ys h.1,
    )
    | inr here ↦ rw here (
      (
        here,
        All-mono (λ b. less b y ≡ false) (λ b. less b x ≡ false) ys
            (λ b not_before. order.transitive x y b here not_before) h.0,
      ),
      h,
    )
  ]

  insertion_sort-Ordered :
      (order : IsOrder less) (xs : List ℕ) → Ordered (λ a b. less b a ≡ false) (insertion_sort xs)
  unfolding insertion_sort
  insertion_sort-Ordered order [] = tt
  insertion_sort-Ordered order (x ∷ xs) =
      insert_one-Ordered order x (insertion_sort xs) (insertion_sort-Ordered order xs)

abbrev insertion : SortSlice
insertion = record {
  sort = insertion_sort;
  same_elements = insertion_sort-Perm;
  in_order = λ less xs order. insertion_sort-Ordered less order xs;
}

abbrev always : {A : Type 0} → A → Unit {0} → Call A × Unit {0}
always a u = (answered a, u)

abbrev willing : PluginApi
willing = record {
  Conn = Unit {0};
  create_container = λ c. always (none, []);
  update_container = λ q. always [];
  stop_container = always [];
  update_pod_sandbox = always tt;
  state_change = λ e. always tt;
  validate_adjustment = λ req. always (record { reject = false; reason = "" });
  hang_up = λ u. u;
}

abbrev a_plugin : String → Plugin willing
a_plugin idx = record {
  idx = idx;
  base = "plugin";
  events = 16383;
  is_local = false;
  closed = false;
  conn = tt;
}

abbrev nobody : Runtime willing
nobody = record { store = λ h. a_plugin ""; plugins = []; validators = [] }

-- The plugin with the greater index comes first, and a request before the other one.
abbrev with_late : Runtime willing
with_late = accept_plugin willing insertion 0 (a_plugin "20") true nobody

abbrev after_update : Runtime willing
after_update = (update_pod_sandbox willing with_late).1

after_update_plugins : after_update.plugins ≡ 0 ∷ []
unfolding accept_plugin update_pod_sandbox keep insertion_sort insert_one
after_update_plugins = refl

after_update_validators : after_update.validators ≡ 0 ∷ []
unfolding accept_plugin update_pod_sandbox keep insertion_sort insert_one
after_update_validators = refl

zero_apart : All (λ (g : ℕ). g ≢ 1) (0 ∷ [])
zero_apart = (λ e. omega arith, tt)

apart_plugins : All (λ g. g ≢ 1) after_update.plugins
apart_plugins = rw after_update_plugins zero_apart

apart_validators : All (λ g. g ≢ 1) after_update.validators
apart_validators = rw after_update_validators zero_apart

abbrev with_both : Runtime willing
with_both = accept_plugin willing insertion 1 (a_plugin "10") true after_update

both_steps : Reachable willing insertion with_both
both_steps =
    stepping
      (stepping (stepping (starting (λ h. a_plugin "")) (accepting 0 (a_plugin "20") true tt tt))
        updating_pod)
      (accepting 1 (a_plugin "10") true apart_plugins apart_validators)

-- The plugin with the lesser index is invoked first, although it came later.
run_order : with_both.plugins ≡ 1 ∷ 0 ∷ []
unfolding accept_plugin update_pod_sandbox keep insertion_sort insert_one
run_order = refl

-- A plugin in the lists that registers again with a greater index stays in front.
abbrev re_registered : Runtime willing
re_registered = register_at willing insertion 1 true "plugin" "30" with_both

run_out_of_order :
    (re_registered.plugins ≡ 1 ∷ 0 ∷ [])
    × (string_ltb (re_registered.store 0).idx (re_registered.store 1).idx ≡ true)
unfolding accept_plugin update_pod_sandbox keep insertion_sort insert_one register_plugin string_ltb
run_out_of_order = (refl, refl)

Reachable-IsInOrder_example : IsInOrder willing insertion with_both
Reachable-IsInOrder_example = Reachable-IsInOrder willing insertion with_both both_steps

accept_plugin-IsRegistered_example : IsRegistered willing insertion 1 after_update with_both
accept_plugin-IsRegistered_example =
    accept_plugin-IsRegistered willing insertion 1 (a_plugin "10") after_update refl apart_plugins
