-- ===== src/Adaptation/Registration/InOrder.antt =====
-- What keeps the plugins in the order of their indices (pkg/adaptation/adaptation.go).
use nri.Base.{
  ℕ, ◌≡◌, ◌≢◌, refl, ◌∙◌, ap, Bool, true, false, not, List, [], ◌∷◌, ◌++◌, All, All-mono, keep,
  nat_beq, arith, if◌then◌else◌,
}
use nri.Adaptation.Relay.{PluginApi, Plugin, is_validator}
use nri.Adaptation.Requests.{Runtime, put, remove_closed_plugins, after_request}
use nri.Adaptation.Requests.Ordering.{Ordered, Ordered-keep}
use nri.Adaptation.Registration.{SortSlice, string_ltb, index_less, sort_plugins, accept_plugin}
use nri.Adaptation.Registration.Indices.{by_string-IsOrder}
use nri.Adaptation.Registration.Keeps.{SameIndices}

Ordered-mono :
    (R Q : ℕ → ℕ → Type 0) (xs : List ℕ) → ((x y : ℕ) → R x y → Q x y) → Ordered R xs → Ordered Q xs
Ordered-mono R Q [] f h = tt
Ordered-mono R Q (x ∷ xs) f h = (All-mono (R x) (Q x) xs (f x) h.0, Ordered-mono R Q xs f h.1)

module _ (api : PluginApi) (slices : SortSlice) where
  -- No plugin has a greater index than one behind it.
  abbrev pub IndexOrder : (ℕ → Plugin api) → ℕ → ℕ → Type 0
  IndexOrder store g h = string_ltb (store h).idx (store g).idx ≡ false

  -- The plugins, and the validators, are in the order of their indices.
  pub record IsInOrder (rt : Runtime api) : Type 0 where
    pub plugins : Ordered (IndexOrder rt.store) rt.plugins
    pub validators : Ordered (IndexOrder rt.store) rt.validators

  pub same-IsInOrder :
      (store : ℕ → Plugin api) (rt : Runtime api)
      → SameIndices api rt.store store
      → IsInOrder rt
      → IsInOrder (record rt { store = store })
  same-IsInOrder store rt same h =
      let moved : (g k : ℕ) → IndexOrder rt.store g k → IndexOrder store g k = λ g k o.
        ap (λ s. string_ltb s (store g).idx) (same k)
        ∙ (ap (string_ltb (rt.store k).idx) (same g) ∙ o) in
      record {
        plugins = Ordered-mono (IndexOrder rt.store) (IndexOrder store) rt.plugins moved h.plugins;
        validators =
            Ordered-mono (IndexOrder rt.store) (IndexOrder store) rt.validators moved h.validators;
      }

  closed-IsInOrder : (rt : Runtime api) → IsInOrder rt → IsInOrder (remove_closed_plugins api rt)
  unfolding remove_closed_plugins
  closed-IsInOrder rt h =
      let active =
        Ordered-keep (IndexOrder rt.store) (λ g. not (rt.store g).closed) rt.plugins h.plugins in
      record {
        plugins = active;
        validators =
            Ordered-keep (IndexOrder rt.store) (λ g. is_validator api (rt.store g))
              (keep (λ g. not (rt.store g).closed) rt.plugins) active;
      }

  pub after_request-IsInOrder :
      (store : ℕ → Plugin api) (rt : Runtime api)
      → SameIndices api rt.store store
      → IsInOrder rt
      → IsInOrder (after_request api store rt)
  unfolding after_request
  after_request-IsInOrder store rt same h =
      closed-IsInOrder (record rt { store = store }) (same-IsInOrder store rt same h)

  pub sort_plugins-IsInOrder : (rt : Runtime api) → IsInOrder (sort_plugins api slices rt)
  unfolding sort_plugins
  sort_plugins-IsInOrder rt =
      let alive = remove_closed_plugins api rt in
      let order = by_string-IsOrder (λ g. (alive.store g).idx) in
      record {
        plugins = slices.in_order (index_less api slices alive) alive.plugins order;
        validators = slices.in_order (index_less api slices alive) alive.validators order;
      }

  put_idx :
      (h : ℕ) (p : Plugin api) (store : ℕ → Plugin api) (g : ℕ)
      → g ≢ h
      → (put api h p store g).idx ≡ (store g).idx
  put_idx h p store g apart = let other : nat_beq g h ≡ false = ground arith in rw other refl

  put-All :
      (h : ℕ) (p : Plugin api) (store : ℕ → Plugin api) (x : ℕ) (xs : List ℕ)
      → x ≢ h
      → All (λ g. g ≢ h) xs
      → All (IndexOrder store x) xs
      → All (IndexOrder (put api h p store) x) xs
  put-All h p store x [] other apart o = tt
  put-All h p store x (y ∷ ys) other apart o = (
    ap (λ s. string_ltb s (put api h p store x).idx) (put_idx h p store y apart.0)
        ∙ (ap (string_ltb (store y).idx) (put_idx h p store x other) ∙ o.0),
    put-All h p store x ys other apart.1 o.1,
  )

  put-Ordered :
      (h : ℕ) (p : Plugin api) (store : ℕ → Plugin api) (xs : List ℕ)
      → All (λ g. g ≢ h) xs
      → Ordered (IndexOrder store) xs
      → Ordered (IndexOrder (put api h p store)) xs
  put-Ordered h p store [] apart o = tt
  put-Ordered h p store (x ∷ xs) apart o =
      (put-All h p store x xs apart.0 apart.1 o.0, put-Ordered h p store xs apart.1 o.1)

  -- A plugin that is in neither list may take any index.
  pub unlisted-IsInOrder :
      (h : ℕ) (p : Plugin api) (rt : Runtime api)
      → All (λ g. g ≢ h) rt.plugins
      → All (λ g. g ≢ h) rt.validators
      → IsInOrder rt
      → IsInOrder (record rt { store = put api h p rt.store })
  unlisted-IsInOrder h p rt free unused o = record {
    plugins = put-Ordered h p rt.store rt.plugins free o.plugins;
    validators = put-Ordered h p rt.store rt.validators unused o.validators;
  }

  pub accept_plugin-IsInOrder :
      (h : ℕ) (p : Plugin api) (synchronized : Bool) (rt : Runtime api)
      → All (λ g. g ≢ h) rt.plugins
      → All (λ g. g ≢ h) rt.validators
      → IsInOrder rt
      → IsInOrder (accept_plugin api slices h p synchronized rt)
  unfolding accept_plugin
  accept_plugin-IsInOrder h p true rt free unused o = sort_plugins-IsInOrder (record rt {
    store = put api h p rt.store;
    plugins = rt.plugins ++ h ∷ [];
    validators = if is_validator api p then rt.validators ++ h ∷ [] else rt.validators;
  })
  accept_plugin-IsInOrder h p false rt free unused o = unlisted-IsInOrder h p rt free unused o
