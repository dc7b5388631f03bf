-- ===== src/Prelude/Text.antt =====
-- The functions of Go's `strings` that the code calls, on texts as sequences of characters.
use Prim.Native.String
use Prim.Native.String.append
use Prim.Native.String.{String}
use mathlib.Core.Bool.{Bool, true, false, ◌&&◌, not}
use mathlib.Core.Logic.{◌≢◌, inl, inr}
use mathlib.Core.Option.{Option, none, some}
use native.Mathlib.Omega.{arith}
use text.Mathlib.TextEquality.{eq_iff, starts_with_iff}
use text.Mathlib.Text.{starts_with, ◌==◌}
use text.Mathlib.TextPositions.{starts_with-append, slice-append_right, len-append}
use mathlib.Core.Path.{◌≡◌, ap, sym, ◌∙◌}
use Prim.Native.String.{len, slice, ◌∷◌}
use Prim.Native.Char.{Char}
use kite_mcp_oauth.Prelude.Tests.{if◌then◌else◌, Bool-cases, Option-cases}

-- `s + t`
infixl 65 ◌<>◌
abbrev pub ◌<>◌ : String → String → String
s <> t = String.◌++◌ s t

-- The test for a relative path, `strings.HasPrefix(s, "/") && !strings.HasPrefix(s, "//")`.
abbrev pub is_relative : String → Bool
is_relative s = starts_with s "/" && not (starts_with s "//")

-- `strings.TrimPrefix(s, prefix)`
unfoldable pub trim_prefix : String → String → String
trim_prefix s prefix = if starts_with s prefix then slice s (len prefix) (len s) else s

pub trim_prefix-append : (prefix t : String) → trim_prefix (prefix <> t) prefix ≡ t
unfolding trim_prefix
trim_prefix-append prefix t =
    rw (starts_with-append prefix t) (rw (len-append prefix t) (slice-append_right prefix t))

-- Texts that the test tells apart.
pub differ : (a b : String) → (a == b) ≡ false → a ≢ b
differ a b h e = ground (arith, eq_iff a b)

pub some_differ : (a b : String) → (a == b) ≡ false → some a ≢ some b
some_differ a b h e = differ a b h (ap (λ o. elim o [ none ↦ a | some x ↦ x ]) e)

-- `strings.SplitN(s, sep, 2)` for a separator that is not empty, if it gives two parts.
unfoldable pub split_once : String → String → Option (String × String)
split_once String.[] sep = none
split_once (String.◌∷◌ c s) sep =
    let rest = split_once s sep in
    let whole : String = String.◌∷◌ c s in
    if starts_with whole sep
    then some ("", slice whole (len sep) (len whole))
    else elim rest [ none ↦ none | some p ↦ some (String.◌∷◌ c p.0, p.1) ]

two_colons : (u : String) → "::" <> u ≡ ":" ∷ (":" ∷ u)
two_colons u =
    append.cons ":" ":" u
    ∙ ap (λ (t : String). ":" ∷ t)
        (append.cons ":" "" u ∙ ap (λ (t : String). ":" ∷ t) (append.nil u))

append_two : (c : Char) (s t : String) → (c ∷ s) <> t ≡ c ∷ (s <> t)
append_two c s t = append.cons c s t

-- A text that starts with two characters is known by its first two.
starts_with_two :
    (c : Char) (a b : String)
    → starts_with (c ∷ (a <> ":")) "::" ≡ false
    → starts_with (c ∷ (a <> ("::" <> b))) "::" ≡ false
starts_with_two c String.[] b h = elim (Bool-cases (starts_with (c ∷ ("" <> ("::" <> b))) "::")) [
  | inr differs ↦ differs
  | inl same ↦
      let (u, e) = (starts_with_iff (c ∷ ("" <> ("::" <> b))) "::").0 same in
      let heads : (":" ∷ (":" ∷ u)) ≡ c ∷ (":" ∷ (":" ∷ b)) =
        sym (two_colons u)
        ∙ e
        ∙ ap (λ (t : String). c ∷ t) (append.nil ("::" <> b) ∙ two_colons b) in
      let first : c ≡ ":" = cc heads in
      let pair : "::" ≡ c ∷ ":" = cc first in cc (h, (starts_with_iff (c ∷ ":") "::").1 ("", pair))
]
starts_with_two c (String.◌∷◌ d a) b h =
    elim (Bool-cases (starts_with (c ∷ (d ∷ (a <> ("::" <> b)))) "::")) [
      | inr differs ↦
          ap (λ (t : String). starts_with (c ∷ t) "::") (append_two d a ("::" <> b)) ∙ differs
      | inl same ↦
          let (u, e) = (starts_with_iff (c ∷ (d ∷ (a <> ("::" <> b)))) "::").0 same in
          let heads : (":" ∷ (":" ∷ u)) ≡ c ∷ (d ∷ (a <> ("::" <> b))) = sym (two_colons u) ∙ e in
          let first : c ≡ ":" = cc heads in
          let second : d ≡ ":" = cc heads in
          let pair : "::" <> (a <> ":") ≡ c ∷ (d ∷ (a <> ":")) =
            two_colons (a <> ":") ∙ (cc (first, second)) in
          let apart : starts_with (c ∷ (d ∷ (a <> ":"))) "::" ≡ false =
            ap (λ (t : String). starts_with (c ∷ t) "::") (sym (append_two d a ":")) ∙ h in
          cc (apart, (starts_with_iff (c ∷ (d ∷ (a <> ":"))) "::").1 (a <> ":", pair))
    ]

split_once_two : (b : String) → split_once (":" ∷ (":" ∷ b)) "::" ≡ some ("", b)
unfolding split_once
split_once_two b = rw starts (ap (λ (t : String). some ("", t)) rest)
  where
    starts : starts_with (":" ∷ (":" ∷ b)) "::" ≡ true
    starts =
        ap (λ (t : String). starts_with t "::") (sym (two_colons b)) ∙ starts_with-append "::" b

    rest : slice (":" ∷ (":" ∷ b)) 2 (len (":" ∷ (":" ∷ b))) ≡ b
    rest =
        ap (λ (t : String). slice t 2 (len t)) (sym (two_colons b))
        ∙ ap (slice ("::" <> b) 2) (len-append "::" b)
        ∙ slice-append_right "::" b

split_once-cons :
    (c : Char) (a b : String)
    → split_once (c ∷ (a <> ":")) "::" ≡ none
    → (split_once (a <> ":") "::" ≡ none → split_once (a <> ("::" <> b)) "::" ≡ some (a, b))
    → split_once (c ∷ (a <> ("::" <> b))) "::" ≡ some (c ∷ a, b)
unfolding split_once
split_once-cons c a b h rest = elim (Bool-cases (starts_with (c ∷ (a <> ":")) "::")) [
  | inl same ↦ absurd (ground arith)
  | inr differs ↦ elim (Option-cases (split_once (a <> ":") "::")) [
    | inl apart ↦ ground (arith, starts_with_two c a b differs, rest apart)
    | inr (p, found) ↦ absurd (ground arith)
  ]
]

-- The split is at the first separator: the text in front of it comes back, and the text behind it,
-- if the first one makes no separator with the colon that follows it.
pub split_once-append :
    (a b : String)
    → split_once (a <> ":") "::" ≡ none
    → split_once (a <> ("::" <> b)) "::" ≡ some (a, b)
split_once-append String.[] b h =
    ap (λ (t : String). split_once t "::") (append.nil ("::" <> b) ∙ two_colons b)
    ∙ split_once_two b
split_once-append (String.◌∷◌ c a) b h =
    ap (λ (t : String). split_once t "::") (append_two c a ("::" <> b))
    ∙ split_once-cons c a b (ap (λ (t : String). split_once t "::") (sym (append_two c a ":")) ∙ h)
        (split_once-append a b)
