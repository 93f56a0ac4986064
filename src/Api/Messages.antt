-- ===== src/Api/Messages.antt =====
-- Helpers on the messages of pkg/api: marks for removal (mount.go, device.go, namespace.go, env.go) and
-- environment variables (env.go).
use Prim.Native.String.{◌++◌ as str_append}
use text.Mathlib.TextLemmas.{nil-append, cons-append}
use nri.Base.{
  String, code, ◌≡◌, arith, Bool, true, not, ◌&&◌, Option, none, some, List, [], ◌∷◌, ◌==◌, nat_eq,
  if◌then◌else◌,
}
use nri.Api.Removal.{is_marked_for_removal}
use nri.Api.Types.{Mount, LinuxDevice, LinuxNamespace, KeyValue}

-- `Mount.IsMarkedForRemoval`
unfoldable pub mount_is_marked : Mount → String × Bool
mount_is_marked m = is_marked_for_removal m.destination

-- `LinuxDevice.IsMarkedForRemoval`
unfoldable pub device_is_marked : LinuxDevice → String × Bool
device_is_marked d = is_marked_for_removal d.path

-- `LinuxNamespace.IsMarkedForRemoval`
unfoldable pub namespace_is_marked : LinuxNamespace → String × Bool
namespace_is_marked n = is_marked_for_removal n.type

-- `KeyValue.IsMarkedForRemoval`
unfoldable pub env_is_marked : KeyValue → String × Bool
env_is_marked e = is_marked_for_removal e.key

-- `KeyValue.ToOCI`
unfoldable pub to_oci : KeyValue → String
to_oci e = str_append e.key (str_append "=" e.value)

abbrev prepend_char : String → List String → List String
prepend_char s [] = []
prepend_char s (x ∷ xs) = str_append s x ∷ xs

-- `strings.SplitN(s, "=", 2)`
unfoldable pub split_n : String → List String
split_n String.[] = "" ∷ []
split_n (String.◌∷◌ first rest) =
    let parts = split_n rest in
    if code first == b'=' then "" ∷ rest ∷ [] else prepend_char (String.◌∷◌ first "") parts

-- `strings.Join(parts, "=")`
join : List String → String
join [] = ""
join (x ∷ []) = x
join (x ∷ y ∷ r) = str_append x (str_append "=" (join (y ∷ r)))

-- One variable of `FromOCIEnv`: an empty split is skipped.
from_split : List String → Option KeyValue
from_split [] = none
from_split (k ∷ []) = some (record { key = k; value = "" })
from_split (k ∷ v ∷ []) = some (record { key = k; value = v })
from_split (k ∷ rest) = some (record { key = ""; value = join rest })

abbrev cons_some : Option KeyValue → List KeyValue → List KeyValue
cons_some none es = es
cons_some (some e) es = e ∷ es

unfoldable pub from_oci_env : List String → List KeyValue
unfolding from_split join split_n
from_oci_env [] = []
from_oci_env (s ∷ rest) = cons_some (from_split (split_n s)) (from_oci_env rest)

split_pair : List String → String × String
split_pair [] = ("", "")
split_pair (k ∷ v ∷ []) = (k, v)
split_pair (k ∷ rest) = (k, "")

-- `splitEnvVar` (pkg/adaptation/result.go)
unfoldable pub split_env_var : String → String × String
unfolding split_pair split_n
split_env_var s = split_pair (split_n s)

-- A name that can stand before the '='.
unfoldable pub is_env_name : String → Bool
is_env_name String.[] = true
is_env_name (String.◌∷◌ c s) = not (code c == b'=') && is_env_name s

split_n-to_oci :
    (k v : String) → is_env_name k ≡ true → split_n (str_append k (str_append "=" v)) ≡ k ∷ v ∷ []
unfolding split_n is_env_name
split_n-to_oci String.[] v h =
    rw (nil-append (str_append "=" v), cons-append "=" String.[] v, nil-append v)
split_n-to_oci (String.◌∷◌ c k) v h =
    rw (cons-append c k (str_append "=" v))
      (ground (arith, split_n-to_oci k v, cons-append c String.[] k, nil-append k))

-- A variable with a name that has no '=' is read back from its OCI form, by the runtime's side and by
-- `splitEnvVar`, whatever its value.
pub from_oci_env-to_oci :
    (e : KeyValue) (rest : List String)
    → is_env_name e.key ≡ true
    → (from_oci_env (to_oci e ∷ rest) ≡ e ∷ from_oci_env rest)
      × (split_env_var (to_oci e) ≡ (e.key, e.value))
unfolding from_oci_env split_env_var to_oci
from_oci_env-to_oci e rest h =
    (rw (split_n-to_oci e.key e.value h), rw (split_n-to_oci e.key e.value h))
