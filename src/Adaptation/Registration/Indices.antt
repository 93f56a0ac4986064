-- ===== src/Adaptation/Registration/Indices.antt =====
-- The order of strings, by which plugins are sorted, is a strict weak order.
use nri.Base.{String, ◌≡◌, refl, true, false, arith}
use nri.Adaptation.Registration.{string_ltb, IsOrder}

string_ltb_asymmetric : (s t : String) → string_ltb s t ≡ true → string_ltb t s ≡ false
unfolding string_ltb
string_ltb_asymmetric String.[] String.[] h = refl
string_ltb_asymmetric String.[] (String.◌∷◌ d t) h = refl
string_ltb_asymmetric (String.◌∷◌ c s) String.[] h = ground arith
string_ltb_asymmetric (String.◌∷◌ c s) (String.◌∷◌ d t) h =
    ground (arith, string_ltb_asymmetric s t)

string_ltb_transitive :
    (s t u : String) → string_ltb t s ≡ false → string_ltb u t ≡ false → string_ltb u s ≡ false
unfolding string_ltb
string_ltb_transitive String.[] t String.[] h k = refl
string_ltb_transitive String.[] String.[] (String.◌∷◌ e u) h k = refl
string_ltb_transitive String.[] (String.◌∷◌ d t) (String.◌∷◌ e u) h k = refl
string_ltb_transitive (String.◌∷◌ c s) String.[] u h k = ground arith
string_ltb_transitive (String.◌∷◌ c s) (String.◌∷◌ d t) String.[] h k = ground arith
string_ltb_transitive (String.◌∷◌ c s) (String.◌∷◌ d t) (String.◌∷◌ e u) h k =
    ground (arith, string_ltb_transitive s t u)

-- The order of the strings that a function gives.
pub by_string-IsOrder : {A : Type 0} (f : A → String) → IsOrder (λ x y. string_ltb (f x) (f y))
by_string-IsOrder f = record {
  asymmetric = λ x y. string_ltb_asymmetric (f x) (f y);
  transitive = λ x y z. string_ltb_transitive (f x) (f y) (f z);
}
