-- ===== src/Api/Owners.antt =====
-- Owners of container fields (pkg/api/owners.go): who has set what, and who has cleared it. The
-- owner of a field is a plugin's name, or the marked name of the plugin that cleared it.
pub mod Spec
pub mod Refines
pub mod Trace
pub mod Exclusive
pub mod FieldClaims
pub mod FieldLookups
pub mod Claims
pub mod Lookups
pub mod Table
pub mod Calls
use nri.Base.{
  ℕ, String, Bool, true, false, Option, none, some, List, [], ◌∷◌, ◌==◌, nat_eq, string_eq,
  if◌then◌else◌,
}
use nri.Base.Map.{Map, lookup, insert}
use nri.Base.Exec.{Error, conflict, panic, Outcome, ok, err, Exec, ◌>>=◌, ◌>>◌}
use nri.Api.Removal.{is_marked_for_removal, mark_for_removal}

pub record CompoundFieldOwners : Type 0 where
  pub owners : Map String String

pub record FieldOwners : Type 0 where
  pub simple : Map ℕ String
  pub compound : Map ℕ CompoundFieldOwners

abbrev pub new_compound_field_owners : CompoundFieldOwners
new_compound_field_owners = record { owners = [] }

abbrev pub new_field_owners : FieldOwners
new_field_owners = record { simple = []; compound = [] }

-- `FieldOwners.Conflict`; the error keeps the values that the Go code formats into a message.
abbrev pub conflict_error : ℕ → String → String → List String → Error
conflict_error field plugin other qualifiers = conflict field plugin other qualifiers

-- The part of both conflict checks below their lookup: an unclaimed field is no conflict, and
-- neither is one that the plugin itself has cleared.
unfoldable pub check_owner : ℕ → String → List String → Option String → Outcome (Unit {0})
check_owner field plugin qualifiers none = ok tt
check_owner field plugin qualifiers (some other) =
    let (clearer, marked) = is_marked_for_removal other in
    if marked
    then (if clearer == plugin then ok tt else err (conflict_error field plugin clearer qualifiers))
    else err (conflict_error field plugin other qualifiers)

-- A field that has no map yet gets an empty one.
unfoldable pub is_compound_conflict : ℕ → String → String → Exec FieldOwners (Unit {0})
unfolding check_owner
is_compound_conflict field entry plugin f = elim (lookup field f.compound) [
  | none ↦ (ok tt, record f { compound = insert field new_compound_field_owners f.compound })
  | some m ↦ (check_owner field plugin (entry ∷ []) (lookup entry m.owners), f)
]

unfoldable pub is_simple_conflict : ℕ → String → Exec FieldOwners (Unit {0})
unfolding check_owner
is_simple_conflict field plugin f = (check_owner field plugin [] (lookup field f.simple), f)

-- `f.Compound[field].Owners[entry] = plugin`
set_compound_owner : ℕ → String → String → Exec FieldOwners (Unit {0})
set_compound_owner field entry plugin f = elim (lookup field f.compound) [
  | none ↦ (err panic, f)
  | some m ↦ (
    ok tt,
    record f {
      compound = insert field (record m { owners = insert entry plugin m.owners }) f.compound;
    },
  )
]

unfoldable pub claim_compound : ℕ → String → String → Exec FieldOwners (Unit {0})
unfolding is_compound_conflict set_compound_owner
claim_compound field entry plugin = do
  is_compound_conflict field entry plugin
  set_compound_owner field entry plugin

unfoldable pub claim_simple : ℕ → String → Exec FieldOwners (Unit {0})
unfolding is_simple_conflict
claim_simple field plugin = do
  is_simple_conflict field plugin
  λ f. (ok tt, record f { simple = insert field plugin f.simple })

get_compound : ℕ → FieldOwners → CompoundFieldOwners
get_compound field f = elim (lookup field f.compound) [
  | none ↦ new_compound_field_owners
  | some m ↦ m
]

unfoldable pub clear_compound : ℕ → String → String → FieldOwners → FieldOwners
unfolding get_compound mark_for_removal
clear_compound field entry plugin f =
    let m = get_compound field f in
    record f {
      compound =
          insert field (record m { owners = insert entry (mark_for_removal plugin) m.owners })
            f.compound;
    }

unfoldable pub clear_simple : ℕ → String → FieldOwners → FieldOwners
unfolding mark_for_removal
clear_simple field plugin f = record f { simple = insert field (mark_for_removal plugin) f.simple }

-- The results `("", false)` and `(owner, true)` of the Go code are `none` and `some owner` here; a
-- nil receiver is `none`.
unfoldable pub compound_owner_map : ℕ → Option FieldOwners → Option (Map String String)
compound_owner_map field none = none
compound_owner_map field (some f) = elim (lookup field f.compound) [
  | none ↦ none
  | some m ↦ some m.owners
]

unfoldable pub compound_owner : ℕ → String → Option FieldOwners → Option String
compound_owner field entry none = none
compound_owner field entry (some f) = elim (lookup field f.compound) [
  | none ↦ none
  | some m ↦ lookup entry m.owners
]

unfoldable pub simple_owner : ℕ → Option FieldOwners → Option String
simple_owner field none = none
simple_owner field (some f) = lookup field f.simple

-- The owners of all containers, by container id.
pub record OwningPlugins : Type 0 where
  pub owners : Map String FieldOwners

abbrev pub new_owning_plugins : OwningPlugins
new_owning_plugins = record { owners = [] }

unfoldable pub owners_for : String → OwningPlugins → Option FieldOwners
owners_for id o = lookup id o.owners

unfoldable pub must_owners_for : String → OwningPlugins → FieldOwners
unfolding owners_for
must_owners_for id o = elim (owners_for id o) [ none ↦ new_field_owners | some f ↦ f ]

-- `o.mustOwnersFor(id).op(…)`: `op` works on the object in the map, whatever it returns.
unfoldable pub with_owners_for : {A : Type 0} → String → Exec FieldOwners A → Exec OwningPlugins A
with_owners_for id op o =
    let (r, f) = op (must_owners_for id o) in (r, record o { owners = insert id f o.owners })

unfoldable pub clear_owners_for :
    String → (FieldOwners → FieldOwners) → OwningPlugins → OwningPlugins
clear_owners_for id op o = record o { owners = insert id (op (must_owners_for id o)) o.owners }
