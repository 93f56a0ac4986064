-- ===== src/Adaptation/Registration/Accepted.antt =====
-- Which plugins there are after a registration (pkg/adaptation/adaptation.go).
use mathlib.Core.List.{Perm, perm_append_singleton}
use mathlib.Core.List.Perm
use nri.Base.{
  ℕ, ◌≡◌, refl, ◌∙◌, ap, subst, Bool, true, false, not, List, [], ◌∷◌, ◌++◌, keep, Bool-cases, inl,
  inr, if◌then◌else◌, nat_beq, All, arith, ◌≢◌,
}
use nri.Adaptation.Relay.{PluginApi, Plugin, is_validator}
use nri.Adaptation.Requests.{Runtime, put, remove_closed_plugins}
use nri.Adaptation.Registration.{SortSlice, sort_plugins, accept_plugin}
use nri.Adaptation.Registration.InOrder.{IsInOrder, sort_plugins-IsInOrder}

module _ (api : PluginApi) (slices : SortSlice) where
  -- The plugins that were there and are not closed, and a new one, in the order of their indices; the
  -- validators are those of them that validate, each once.
  pub record IsRegistered (h : ℕ) (before after : Runtime api) : Type 0 where
    pub in_order : IsInOrder api slices after
    pub plugins : Perm after.plugins (h ∷ keep (λ g. not (before.store g).closed) before.plugins)
    pub validators : Perm after.validators (
        keep
          (λ g. is_validator api (after.store g))
          (keep (λ g. not (before.store g).closed) before.plugins ++ h ∷ []))

  keep-append_one :
      (test : ℕ → Bool) (xs : List ℕ) (x : ℕ)
      → test x ≡ true
      → keep test (xs ++ x ∷ []) ≡ keep test xs ++ x ∷ []
  unfolding keep
  keep-append_one test [] x passes = rw passes refl
  keep-append_one test (y ∷ ys) x passes = elim (Bool-cases (test y)) [
    | inl stays ↦ rw (stays, keep-append_one test ys x passes) refl
    | inr goes ↦ rw (goes, keep-append_one test ys x passes) refl
  ]

  -- The plugins that are at another address are as they were.
  keep-put :
      (h : ℕ) (p : Plugin api) (store : ℕ → Plugin api) (xs : List ℕ)
      → All (λ g. g ≢ h) xs
      → keep (λ g. not (put api h p store g).closed) xs ≡ keep (λ g. not (store g).closed) xs
  unfolding keep
  keep-put h p store [] apart = refl
  keep-put h p store (x ∷ xs) apart =
      let other : nat_beq x h ≡ false = ground arith in
      rw (other, keep-put h p store xs apart.1) refl

  open_plugins :
      (h : ℕ) (p : Plugin api) (rt : Runtime api)
      → p.closed ≡ false
      → All (λ g. g ≢ h) rt.plugins
      → keep (λ g. not (put api h p rt.store g).closed) (rt.plugins ++ h ∷ [])
        ≡ keep (λ g. not (rt.store g).closed) rt.plugins ++ h ∷ []
  open_plugins h p rt running apart =
      let here : nat_beq h h ≡ true = ground arith in
      let passes : not (put api h p rt.store h).closed ≡ true = rw here (rw running refl) in
      keep-append_one (λ g. not (put api h p rt.store g).closed) rt.plugins h passes
      ∙ ap (λ xs. xs ++ h ∷ []) (keep-put h p rt.store rt.plugins apart)

  -- A plugin that has connected at an address of its own, and that the runtime could synchronize, is
  -- among the plugins, unless its connection is closed already, with those that were there and are
  -- not closed, each as often as before; they are in the order of their indices, and so are the
  -- validators, which are those of them that validate.
  pub accept_plugin-IsRegistered :
      (h : ℕ) (p : Plugin api) (rt : Runtime api)
      → p.closed ≡ false
      → All (λ g. g ≢ h) rt.plugins
      → IsRegistered h rt (accept_plugin api slices h p true rt)
  unfolding accept_plugin sort_plugins remove_closed_plugins
  accept_plugin-IsRegistered h p rt running apart =
      let still = open_plugins h p rt running apart in
      record {
        in_order = sort_plugins-IsInOrder api slices (record {
          store = put api h p rt.store;
          plugins = rt.plugins ++ h ∷ [];
          validators = if is_validator api p then rt.validators ++ h ∷ [] else rt.validators;
        });
        plugins =
            Perm.trans (slices.same_elements _ _)
              (rw still (perm_append_singleton h (keep (λ g. not (rt.store g).closed) rt.plugins)));
        validators =
            subst
              (λ xs.
                Perm (accept_plugin api slices h p true rt).validators
                  (keep (λ g. is_validator api (put api h p rt.store g)) xs))
              still (slices.same_elements _ _);
      }
