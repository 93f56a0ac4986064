-- ===== src/Api/PluginName.antt =====
-- The names of plugins (pkg/api/plugin.go): two digits, a dash and a base.
use Prim.Native.String.{◌++◌ as str_append, len}
use Prim.Native.Char.{Char}
use text.Mathlib.TextLemmas.{nil-append, cons-append}
use text.Mathlib.TextEquality.{Char-path}
use nri.Base.{
  String, code, ◌≡◌, refl, ap, ◌∙◌, arith, Bool, true, false, not, ◌&&◌, Bool-cases, Option, none,
  some, Option-cases, inl, inr, ◌↔◌, ◌==◌, nat_eq, nat_beq, leb, if◌then◌else◌,
}

pub data NameError : Type 0 where
  -- "invalid plugin name %q, idx-pluginname expected"
  no_dash : NameError
  -- "invalid plugin index %q, must be 2 digits"
  bad_length : NameError
  -- "invalid plugin index %q (not [0-9][0-9])"
  bad_digits : NameError

pub data PluginName : Type 0 where
  parsed : String → String → PluginName
  bad_name : NameError → PluginName

abbrev is_digit : Char → Bool
is_digit c = leb b'0' (code c) && leb (code c) b'9'

-- Bytes that are digits are characters.
abbrev are_digits : String → Bool
are_digits (String.◌∷◌ c (String.◌∷◌ d String.[])) = is_digit c && is_digit d
are_digits _ = false

unfoldable pub check_plugin_index : String → Option NameError
check_plugin_index idx =
    if not (nat_beq (len idx) 2)
    then some bad_length
    else if are_digits idx
    then none
    else some bad_digits

-- `strings.SplitN(s, "-", 2)`: what is before the first dash, and what is after it, if there is one.
unfoldable pub split_dash : String → String × Option String
split_dash String.[] = ("", none)
split_dash (String.◌∷◌ c s) =
    let (before, after) = split_dash s in
    if code c == b'-' then ("", some s) else (String.◌∷◌ c before, after)

unfoldable pub parse_plugin_name : String → PluginName
unfolding split_dash check_plugin_index
parse_plugin_name s =
    let (idx, after) = split_dash s in
    elim after [
      | none ↦ bad_name no_dash
      | some base ↦ elim (check_plugin_index idx) [ none ↦ parsed idx base | some e ↦ bad_name e ]
    ]

-- `plugin.name` (pkg/adaptation/plugin.go)
abbrev pub full_name : String → String → String
full_name idx base = str_append idx (str_append "-" base)

full_name-empty : (c : Char) (s : String) → code c ≡ b'-' → String.◌∷◌ c s ≡ full_name "" s
full_name-empty c s dash =
    rw (nil-append (str_append "-" s), cons-append "-" String.[] s, nil-append s)
      (ap (λ d. String.◌∷◌ d s) (Char-path c _ dash))

full_name-cons :
    (c : Char) (before base : String)
    → String.◌∷◌ c (full_name before base) ≡ full_name (String.◌∷◌ c before) base
full_name-cons c before base = rw (cons-append c before (str_append "-" base)) refl

split_dash-after :
    (s base : String) → (split_dash s).1 ≡ some base → s ≡ full_name (split_dash s).0 base
unfolding split_dash
split_dash-after String.[] base e = absurd (ground arith)
split_dash-after (String.◌∷◌ c s) base e = elim (Bool-cases (code c == b'-')) [
  | inl dash ↦
      let rest : some s ≡ some base = let e' = e in rw dash at e' in
      rw dash (full_name-empty c s (ground arith) ∙ ap (full_name "") (ground arith))
  | inr other ↦
      let rest : (split_dash s).1 ≡ some base = let e' = e in rw other at e' in
      rw other
        (ap (String.◌∷◌ c) (split_dash-after s base rest) ∙ full_name-cons c (split_dash s).0 base)
]

split_dash-empty : (base : String) → split_dash (full_name "" base) ≡ ("", some base)
unfolding split_dash
split_dash-empty base =
    rw (nil-append (str_append "-" base), cons-append "-" String.[] base, nil-append base) refl

split_dash-cons :
    (c : Char) (before base : String)
    → is_digit c ≡ true
    → split_dash (full_name before base) ≡ (before, some base)
    → split_dash (full_name (String.◌∷◌ c before) base) ≡ (String.◌∷◌ c before, some base)
unfolding split_dash
split_dash-cons c before base digit e =
    let other : (code c == b'-') ≡ false = ground arith in
    rw (cons-append c before (str_append "-" base), other, e) refl

-- An index has no dash.
split_dash-full_name :
    (idx base : String) → are_digits idx ≡ true → split_dash (full_name idx base) ≡ (idx, some base)
split_dash-full_name String.[] base h = absurd (ground arith)
split_dash-full_name (String.◌∷◌ c String.[]) base h = absurd (ground arith)
split_dash-full_name (String.◌∷◌ c (String.◌∷◌ d String.[])) base h =
    split_dash-cons c (String.◌∷◌ d String.[]) base (ground arith)
      (split_dash-cons d String.[] base (ground arith) (split_dash-empty base))
split_dash-full_name (String.◌∷◌ c (String.◌∷◌ d (String.◌∷◌ e s))) base h = absurd (ground arith)

index_digits : (idx : String) → check_plugin_index idx ≡ none → are_digits idx ≡ true
unfolding check_plugin_index
index_digits idx e = ground arith

parsed_back :
    (s idx base : String)
    → parse_plugin_name s ≡ parsed idx base
    → (s ≡ full_name idx base) × (check_plugin_index idx ≡ none)
unfolding parse_plugin_name
parsed_back s idx base e = elim (Option-cases (split_dash s).1) [
  | inl none_ ↦
      let e' : bad_name no_dash ≡ parsed idx base =
        (let t = e in rw (none_, parse_plugin_name) at t) in
      absurd (ground arith)
  | inr (b, after) ↦ elim (Option-cases (check_plugin_index (split_dash s).0)) [
    | inr (x, bad) ↦
        let e' : bad_name x ≡ parsed idx base =
          (let t = e in rw (after, parse_plugin_name, bad) at t) in
        absurd (ground arith)
    | inl fine ↦
        let e' : parsed (split_dash s).0 b ≡ parsed idx base =
          (let t = e in rw (after, parse_plugin_name, fine) at t) in
        let i : (split_dash s).0 ≡ idx = ground arith in
        let j : b ≡ base = ground arith in
        (split_dash-after s b after ∙ rw (i, j) refl, rw⁻¹ i fine)
  ]
]

-- A name is parsed into an index and a base exactly if it is the full name that a plugin with them has
-- and the index is valid.
pub parse_plugin_name_iff :
    (s idx base : String)
    → (parse_plugin_name s ≡ parsed idx base)
      ↔ ((s ≡ full_name idx base) × (check_plugin_index idx ≡ none))
unfolding parse_plugin_name
parse_plugin_name_iff s idx base = (
  parsed_back s idx base,
  λ (whole, fine).
      let e = ap split_dash whole ∙ split_dash-full_name idx base (index_digits idx fine) in
      let before : (split_dash s).0 ≡ idx = ap (λ p. p.0) e in
      let after : (split_dash s).1 ≡ some base = ap (λ p. p.1) e in
      rw (after, parse_plugin_name, before, fine) (ap (λ i. parsed i base) before),
)
