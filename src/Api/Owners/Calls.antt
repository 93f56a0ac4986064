-- ===== src/Api/Owners/Calls.antt =====
-- What a client of `OwningPlugins` sees: a claim sets the owner that the lookup of its field returns,
-- and no other. The hooks, and the one lookup that reads the wrong field, stand apart.
use Prim.Native.String.{◌++◌ as str_append}
use text.Mathlib.TextLemmas.{length-append}
use Prim.Native.String.{count}
use nri.Base.{
  ℕ, String, ◌≡◌, ◌≢◌, sym, ap, ◌∙◌, Option, none, some, [], inl, inr, nat_eq, string_eq, arith,
  eq_iff, nat_beq_iff, Option-cases,
}
use nri.Base.Map.{lookup, insert, lookup-insert}
use nri.Base.Exec.{ok}
use nri.Api.Removal.{is_marked_for_removal, mark_for_removal}
use nri.Api.Field.{Field, key, devices, namespace, oci_hooks}
use nri.Api.Owners.{
  FieldOwners, OwningPlugins, claim_simple, claim_compound, clear_simple, simple_owner,
  compound_owner,
}
use nri.Api.Owners.Spec.{owned, Place, simple, compound, place_eq, place_beq_iff}
use nri.Api.Owners.Refines.{
  IsName, view, read_slot, claim-slots, claim-result, claim_compound_new, claim_compound_old,
}
use nri.Api.Owners.Trace.{claiming, call, view_all, call-slots}
use nri.Api.Owners.Table.{FieldApi, place, field_api, IsAt, field_api-IsAt}
use nri.Api.Owners.Exclusive.{claimed-owned}
use nri.Api.Owners.FieldClaims
use nri.Api.Owners.FieldLookups

some_of_owned : (x : Option String) (plugin : String) → read_slot x ≡ owned plugin → x ≡ some plugin
unfolding read_slot
some_of_owned x plugin h = ground arith

api-IsAt : (f : Field) (a : FieldApi) → field_api f ≡ some a → IsAt f (some a)
api-IsAt f a e = let h = field_api-IsAt f in rw e at h

-- When a claim of `OwningPlugins` is granted, the lookup of that field, container and entry returns
-- the plugin. It holds for every field but the hooks and the CDI devices; the plugin's name carries
-- no mark.
owner-claim :
    (f : Field) (a : FieldApi) (id entry plugin : String) (o : OwningPlugins)
    → field_api f ≡ some a
    → IsName plugin
    → (a.claim id entry plugin o).0 ≡ ok tt
    → a.owner id entry (a.claim id entry plugin o).1 ≡ some plugin
owner-claim f a id entry plugin o e name granted =
    let is_at = api-IsAt f a e in
    let p = place a (key f) entry in
    let same = (is_at id entry plugin o).0 in
    let own = claimed-owned id p plugin o name (cc same) in
    some_of_owned _ plugin
      ((is_at id entry plugin (a.claim id entry plugin o).1).1 ∙ cc (same, own))

abbrev field_of : Place → ℕ
field_of (simple field) = field
field_of (compound field entry) = field

field_of-place :
    (a : FieldApi) (field : ℕ) (entry : String) → field_of (place a field entry) ≡ field
field_of-place a field entry = ground arith

claim_elsewhere :
    (id plugin j : String) (p q : Place) (o : OwningPlugins)
    → IsName plugin
    → p ≢ q
    → view_all (call (claiming id p plugin) o).1 j q ≡ view_all o j q
claim_elsewhere id plugin j p q o name ne =
    call-slots (claiming id p plugin) o name j q ∙ ground (arith, place_beq_iff p q, eq_iff id j)

-- A claim of one field leaves the owners of every other field alone, in every container.
owner-claim_ne :
    (f g : Field) (a b : FieldApi) (id entry plugin j other : String) (o : OwningPlugins)
    → field_api f ≡ some a
    → field_api g ≡ some b
    → key f ≢ key g
    → IsName plugin
    → read_slot (b.owner j other (a.claim id entry plugin o).1) ≡ read_slot (b.owner j other o)
owner-claim_ne f g a b id entry plugin j other o ea eb ne name =
    let is_a = api-IsAt f a ea in
    let is_b = api-IsAt g b eb in
    let p = place a (key f) entry in
    let q = place b (key g) other in
    let apart : p ≢ q = λ e.
      ne
        (sym (field_of-place a (key f) entry) ∙ (ap field_of e ∙ field_of-place b (key g) other)) in
    (is_b j other plugin (a.claim id entry plugin o).1).1
    ∙ cc (
      (is_a id entry plugin o).0,
      claim_elsewhere id plugin j p q o name apart,
      (is_b j other plugin o).1,
    )

-- After a granted claim the lookup of the same field, container and entry returns the plugin, and the
-- owners of every other field are the ones from before, in every container; for every field but the
-- hooks and the CDI devices, and a name with no mark.
pub owner-claim_apart :
    (f g : Field) (a b : FieldApi) (id entry plugin j other : String) (o : OwningPlugins)
    → field_api f ≡ some a
    → field_api g ≡ some b
    → key f ≢ key g
    → IsName plugin
    → (a.claim id entry plugin o).0 ≡ ok tt
    → (a.owner id entry (a.claim id entry plugin o).1 ≡ some plugin)
      × (read_slot (b.owner j other (a.claim id entry plugin o).1) ≡ read_slot (b.owner j other o))
owner-claim_apart f g a b id entry plugin j other o ea eb ne name granted = (
  owner-claim f a id entry plugin o ea name granted,
  owner-claim_ne f g a b id entry plugin j other o ea eb ne name,
)

claim_compound_elsewhere :
    (field other : ℕ) (entry k plugin : String) (f : FieldOwners)
    → field ≢ other
    → compound_owner other k (some (claim_compound field entry plugin f).1)
      ≡ compound_owner other k (some f)
unfolding compound_owner
claim_compound_elsewhere field other entry k plugin f ne =
    elim (Option-cases (lookup field f.compound)) [
      | inl absent ↦ ground (
        arith,
        claim_compound_new field entry plugin f absent,
        lookup-insert field other (record { owners = insert entry plugin [] }) f.compound,
        nat_beq_iff field other,
      )
      | inr (m, present) ↦ ground (
        arith,
        claim_compound_old field entry plugin f m present,
        lookup-insert field other (record { owners = insert entry plugin m.owners }) f.compound,
        nat_beq_iff field other,
      )
    ]

claim_compound_granted :
    (field : ℕ) (entry plugin : String) (f : FieldOwners)
    → IsName plugin
    → (claim_compound field entry plugin f).0 ≡ ok tt
    → compound_owner field entry (some (claim_compound field entry plugin f).1) ≡ some plugin
unfolding view
claim_compound_granted field entry plugin f name granted = some_of_owned _ plugin (
    claim-slots plugin f (compound field entry) name (compound field entry)
    ∙ ground (
      arith,
      claim-result plugin f (compound field entry),
      place_beq_iff (compound field entry) (compound field entry),
    ))

-- A granted claim of a namespace is recorded, and `FieldOwners.NamespaceOwner` does not return it: it
-- returns the owner of the device of that name. The plugin's name carries no mark.
pub namespace_owner-claim_namespace :
    (typ plugin : String) (f : FieldOwners)
    → IsName plugin
    → (FieldClaims.claim_namespace typ plugin f).0 ≡ ok tt
    → let f' = some (FieldClaims.claim_namespace typ plugin f).1 in
      (compound_owner (key namespace) typ f' ≡ some plugin)
      × (FieldLookups.namespace_owner typ f' ≡ FieldLookups.device_owner typ (some f))
unfolding FieldLookups.namespace_owner FieldLookups.device_owner FieldClaims.claim_namespace
namespace_owner-claim_namespace typ plugin f name granted = (
  claim_compound_granted (key namespace) typ plugin f name granted,
  claim_compound_elsewhere (key namespace) (key devices) typ typ plugin f (omega arith),
)

joined_ne : (current plugin : String) → plugin ≢ str_append current (str_append "," plugin)
joined_ne current plugin e =
    omega
      (arith, ap count e, length-append current (str_append "," plugin), length-append "," plugin)

-- The first claim of the hooks is recorded. Each later one, by whichever plugin, leaves only the mark
-- that the claiming plugin has cleared them: the claim for both names is refused and forgotten.
pub claim_hooks-owner :
    (plugin : String) (f : FieldOwners)
    → simple_owner (key oci_hooks) (some (FieldClaims.claim_hooks plugin f).1)
      ≡ elim (simple_owner (key oci_hooks) (some f)) [
        | none ↦ some plugin
        | some current ↦ some (mark_for_removal plugin)
      ]
unfolding FieldClaims.claim_hooks claim_simple clear_simple simple_owner is_marked_for_removal
    mark_for_removal
claim_hooks-owner plugin f = elim (Option-cases (lookup (key oci_hooks) f.simple)) [
  | inl absent ↦ ground (arith, lookup-insert (key oci_hooks) (key oci_hooks) plugin f.simple)
  | inr (current, present) ↦ ground (
    arith,
    lookup-insert (key oci_hooks) (key oci_hooks) (mark_for_removal plugin) f.simple,
    joined_ne current plugin,
    eq_iff plugin (str_append current (str_append "," plugin)),
  )
]
