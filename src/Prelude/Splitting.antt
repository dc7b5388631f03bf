-- ===== src/Prelude/Splitting.antt =====
-- `strings.SplitN(s, "|", 2)` on a text with a bar.
use Prim.Native.String.append
use Prim.Native.String.{String, len, slice, ◌∷◌}
use Prim.Native.Char.{Char}
use mathlib.Core.Bool.{true, false}
use mathlib.Core.Logic.{inl, inr}
use mathlib.Core.Option.{none, some}
use mathlib.Core.Path.{◌≡◌, ap, sym, ◌∙◌}
use native.Mathlib.Omega.{arith}
use text.Mathlib.TextEquality.{starts_with_iff}
use text.Mathlib.Text.{starts_with}
use text.Mathlib.TextPositions.{starts_with-append, slice-append_right, len-append}
use kite_mcp_oauth.Prelude.Tests.{Bool-cases, Option-cases}
use kite_mcp_oauth.Prelude.Text.{◌<>◌, split_once}

one_bar : (u : String) → "|" <> u ≡ "|" ∷ u
one_bar u = append.cons "|" "" u ∙ ap (λ (t : String). "|" ∷ t) (append.nil u)

-- Whether a text starts with a bar is known by its first character.
starts_with_one :
    (c : Char) (s t : String) → starts_with (c ∷ s) "|" ≡ false → starts_with (c ∷ t) "|" ≡ false
starts_with_one c s t h = elim (Bool-cases (starts_with (c ∷ t) "|")) [
  | inr differs ↦ differs
  | inl same ↦
      let (u, e) = (starts_with_iff (c ∷ t) "|").0 same in
      let heads : ("|" ∷ u) ≡ c ∷ t = sym (one_bar u) ∙ e in
      let first : c ≡ "|" = cc heads in
      let pair : "|" <> s ≡ c ∷ s = one_bar s ∙ cc first in
      cc (h, (starts_with_iff (c ∷ s) "|").1 (s, pair))
]

split_once_bar_first : (b : String) → split_once ("|" ∷ b) "|" ≡ some ("", b)
unfolding split_once
split_once_bar_first b = rw starts (ap (λ (t : String). some ("", t)) rest)
  where
    starts : starts_with ("|" ∷ b) "|" ≡ true
    starts = ap (λ (t : String). starts_with t "|") (sym (one_bar b)) ∙ starts_with-append "|" b

    rest : slice ("|" ∷ b) 1 (len ("|" ∷ b)) ≡ b
    rest =
        ap (λ (t : String). slice t 1 (len t)) (sym (one_bar b))
        ∙ ap (slice ("|" <> b) 1) (len-append "|" b)
        ∙ slice-append_right "|" b

split_once_bar-cons :
    (c : Char) (a b : String)
    → split_once (c ∷ a) "|" ≡ none
    → (split_once a "|" ≡ none → split_once (a <> ("|" <> b)) "|" ≡ some (a, b))
    → split_once (c ∷ (a <> ("|" <> b))) "|" ≡ some (c ∷ a, b)
unfolding split_once
split_once_bar-cons c a b h rest = elim (Bool-cases (starts_with (c ∷ a) "|")) [
  | inl same ↦ absurd (ground arith)
  | inr differs ↦ elim (Option-cases (split_once a "|")) [
    | inl apart ↦ ground (arith, starts_with_one c a (a <> ("|" <> b)) differs, rest apart)
    | inr (p, found) ↦ absurd (ground arith)
  ]
]

-- A text without a bar comes back from in front of the first bar, and what is behind it too.
pub split_once_bar-append :
    (a b : String) → split_once a "|" ≡ none → split_once (a <> ("|" <> b)) "|" ≡ some (a, b)
split_once_bar-append String.[] b h =
    ap (λ (t : String). split_once t "|") (append.nil ("|" <> b) ∙ one_bar b)
    ∙ split_once_bar_first b
split_once_bar-append (String.◌∷◌ c a) b h =
    ap (λ (t : String). split_once t "|") (append.cons c a ("|" <> b))
    ∙ split_once_bar-cons c a b h (split_once_bar-append a b)
