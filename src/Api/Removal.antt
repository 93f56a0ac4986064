-- ===== src/Api/Removal.antt =====
-- Marks for removal (pkg/api/helpers.go): a key behind a '-'.
use text.Mathlib.TextEquality.{Char-path}
use nri.Base.{
  ℕ, String, code, ◌≡◌, ◌≢◌, refl, ap, Bool, true, false, ◌==◌, nat_eq, if◌then◌else◌, arith,
}

abbrev dash : ℕ
dash = b'-'

-- `IsMarkedForRemoval`: the key without its mark, and whether it had one.
unfoldable pub is_marked_for_removal : String → String × Bool
is_marked_for_removal String.[] = ("", false)
is_marked_for_removal (String.◌∷◌ c key) =
    if code c == dash then (key, true) else (String.◌∷◌ c key, false)

unfoldable pub mark_for_removal : String → String
mark_for_removal key = String.◌∷◌ "-" key

unfoldable pub clear_removal_marker : String → String
clear_removal_marker String.[] = ""
clear_removal_marker (String.◌∷◌ c key) = if code c == dash then key else String.◌∷◌ c key

pub is_marked-mark : (key : String) → is_marked_for_removal (mark_for_removal key) ≡ (key, true)
unfolding is_marked_for_removal mark_for_removal
is_marked-mark key = refl

-- What is behind the mark of a marked key, marked again, is the key.
pub mark-is_marked :
    (key : String)
    → (is_marked_for_removal key).1 ≡ true
    → mark_for_removal (is_marked_for_removal key).0 ≡ key
unfolding is_marked_for_removal mark_for_removal
mark-is_marked String.[] h = ground arith
mark-is_marked (String.◌∷◌ c key) h =
    let same : dash ≡ code c = ground arith in
    ground (arith, ap (λ d. String.◌∷◌ d key) (Char-path "-" c same))

-- A key without a mark is none with a mark.
pub mark-ne-plain :
    (key k : String) → (is_marked_for_removal k).1 ≡ false → mark_for_removal key ≢ k
mark-ne-plain key k plain e =
    cc (is_marked-mark key, plain, ap (λ s. (is_marked_for_removal s).1) e)
