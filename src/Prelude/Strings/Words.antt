-- ===== src/Prelude/Strings/Words.antt =====
-- Words, lines and trimmed ends of a text.
use Prim.Native.Nat.{ℕ}
use mathlib.Core.Path.{◌≡◌, refl, sym, ap, ◌∙◌}
use mathlib.Core.Bool.{Bool, true, false}
use mathlib.Core.List.{[], ◌∷◌, ◌++◌, append-nil, append_assoc}
use mtg_multi.Prelude.Tests.{◌==◌}
use mtg_multi.Prelude.Lists.{All}
use mtg_multi.Prelude.Bytes.{Bytes}
use mtg_multi.Prelude.Strings.{
  is_space, kept_right, trim_right, with_field, fields_from, is_return, drop_return, lines_from,
}

-- A word of a line: no white space in it.
abbrev pub IsWord : Bytes → Type 0
IsWord = All (λ c. is_space c ≡ false)

pub fields_from-word :
    (field w : Bytes) → IsWord w → fields_from field w ≡ with_field (field ++ w) []
unfolding fields_from
fields_from-word field [] h = ap (λ f. with_field f []) (sym (append-nil field))
fields_from-word field (c ∷ w) (hc, h) = rw hc (
    fields_from-word (field ++ (c ∷ [])) w h
    ∙ ap (λ f. with_field f []) (append_assoc field (c ∷ []) w))

pub fields_from-space :
    (field w rest : Bytes)
    → IsWord w
    → fields_from field (w ++ (32 ∷ rest)) ≡ with_field (field ++ w) (fields_from [] rest)
unfolding fields_from
fields_from-space field [] rest h =
    ap (λ f. with_field f (fields_from [] rest)) (sym (append-nil field))
fields_from-space field (c ∷ w) rest (hc, h) = rw hc (
    fields_from-space (field ++ (c ∷ [])) w rest h
    ∙ ap (λ f. with_field f (fields_from [] rest)) (append_assoc field (c ∷ []) w))

pub lines_from-newline :
    (line s rest : Bytes)
    → All (λ c. (c == 10) ≡ false) s
    → lines_from line (s ++ (10 ∷ rest)) ≡ (line ++ s) ∷ lines_from [] rest
unfolding lines_from
lines_from-newline line [] rest h = ap (λ l. l ∷ lines_from [] rest) (sym (append-nil line))
lines_from-newline line (c ∷ s) rest (hc, h) = rw hc (
    lines_from-newline (line ++ (c ∷ [])) s rest h
    ∙ ap (λ l. l ∷ lines_from [] rest) (append_assoc line (c ∷ []) s))

kept_right-end :
    (cut : ℕ → Bool) (c : ℕ) (s : Bytes) (d : ℕ)
    → kept_right cut c (s ++ (d ∷ [])) ≡ c ∷ (s ++ (d ∷ []))
kept_right-end cut c [] d = refl
kept_right-end cut c (x ∷ s) d = refl

pub trim_right-kept :
    (cut : ℕ → Bool) (s : Bytes) (d : ℕ)
    → cut d ≡ false
    → trim_right cut (s ++ (d ∷ [])) ≡ s ++ (d ∷ [])
unfolding trim_right
trim_right-kept cut [] d h = rw h
trim_right-kept cut (c ∷ s) d h =
    ap (kept_right cut c) (trim_right-kept cut s d h) ∙ kept_right-end cut c s d

pub trim_right-cut :
    (cut : ℕ → Bool) (s : Bytes) (d : ℕ)
    → cut d ≡ true
    → trim_right cut (s ++ (d ∷ [])) ≡ trim_right cut s
unfolding trim_right
trim_right-cut cut [] d h = rw h
trim_right-cut cut (c ∷ s) d h = ap (kept_right cut c) (trim_right-cut cut s d h)

pub drop_return-kept :
    (s : Bytes) (d : ℕ) → is_return d ≡ false → drop_return (s ++ (d ∷ [])) ≡ s ++ (d ∷ [])
unfolding drop_return
drop_return-kept [] d h = rw h
drop_return-kept (c ∷ []) d h = ap (λ t. c ∷ t) (drop_return-kept [] d h)
drop_return-kept (c ∷ x ∷ s) d h = ap (λ t. c ∷ t) (drop_return-kept (x ∷ s) d h)
