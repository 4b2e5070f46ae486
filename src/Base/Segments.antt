-- ===== src/Base/Segments.antt =====
-- Texts that are joined by slashes, and how they come apart.
use Prim.Native.Char.{Char, code}
use Prim.Native.String.{String, ◌++◌}
use mathlib.Core.Path.{◌≡◌, refl, sym, ap, ap₂, ◌∙◌}
use mathlib.Core.Logic.{◌≢◌}
use mathlib.Core.Bool.{Bool, true, false, not, ◌&&◌}
use netbox_herald.Base.Tests.{◌==◌}
use text.Mathlib.TextLemmas.{
  append_assoc, nil-append, cons-append, head-eq_of_cons-eq, tail-eq_of_cons-eq,
}

abbrev slash : Char
slash = "/"

-- no character of the text is a slash
abbrev pub Slashless : String → Type 0
Slashless String.[] = Unit
Slashless (String.◌∷◌ c s) = (c ≢ slash) × Slashless s

-- the test of it
unfoldable pub is_slashless : String → Bool
is_slashless String.[] = true
is_slashless (String.◌∷◌ c s) = not (code c == code slash) && is_slashless s

pub is_slashless-Slashless : (s : String) → is_slashless s ≡ true → Slashless s
unfolding is_slashless
is_slashless-Slashless String.[] h = tt
is_slashless-Slashless (String.◌∷◌ c s) h =
    let (differs, rest) = apart (code c == code slash) (is_slashless s) h in
    (λ e. cc (differs, ap (λ k. code k == code slash) e), is_slashless-Slashless s rest)
  where
    apart : (a b : Bool) → not a && b ≡ true → (a ≡ false) × (b ≡ true)
    apart true b h = cc h
    apart false b h = (refl, h)

start : (x : String) → String.[] ++ ("/" ++ x) ≡ String.◌∷◌ slash x
start x =
    nil-append ("/" ++ x)
    ∙ cons-append slash String.[] x
    ∙ ap (λ t. String.◌∷◌ slash t) (nil-append x)

-- What stands before the first slash, and what after it, can be read back.
pub segments :
    (a b x y : String)
    → Slashless a
    → Slashless b
    → a ++ ("/" ++ x) ≡ b ++ ("/" ++ y)
    → (a ≡ b) × (x ≡ y)
segments String.[] String.[] x y p q e = (refl, tail-eq_of_cons-eq (sym (start x) ∙ e ∙ start y))
segments String.[] (String.◌∷◌ d b) x y p (q, qs) e =
    absurd (q (sym (head-eq_of_cons-eq (sym (start x) ∙ e ∙ cons-append d b ("/" ++ y)))))
segments (String.◌∷◌ c a) String.[] x y (p, ps) q e =
    absurd (p (head-eq_of_cons-eq (sym (cons-append c a ("/" ++ x)) ∙ e ∙ start y)))
segments (String.◌∷◌ c a) (String.◌∷◌ d b) x y (p, ps) (q, qs) e =
    let cut = sym (cons-append c a ("/" ++ x)) ∙ e ∙ cons-append d b ("/" ++ y) in
    let (same, rest) = segments a b x y ps qs (tail-eq_of_cons-eq cut) in
    (ap₂ String.◌∷◌ (head-eq_of_cons-eq cut) same, rest)

-- the same for two segments
pub segments_two :
    (a b a' b' x y : String)
    → Slashless a
    → Slashless b
    → Slashless a'
    → Slashless b'
    → (a ++ ("/" ++ (b ++ "/"))) ++ x ≡ (a' ++ ("/" ++ (b' ++ "/"))) ++ y
    → (a ≡ a') × (b ≡ b') × (x ≡ y)
segments_two a b a' b' x y p q p' q' e =
    let (first, rest) =
      segments a a' (b ++ ("/" ++ x)) (b' ++ ("/" ++ y)) p p'
        (sym (flat a b x) ∙ e ∙ flat a' b' y) in
    let (second, last) = segments b b' x y q q' rest in (first, second, last)
  where
    flat : (a b x : String) → (a ++ ("/" ++ (b ++ "/"))) ++ x ≡ a ++ ("/" ++ (b ++ ("/" ++ x)))
    flat a b x =
        append_assoc a ("/" ++ (b ++ "/")) x
        ∙ ap (λ t. a ++ t)
            (append_assoc "/" (b ++ "/") x ∙ ap (λ t. "/" ++ t) (append_assoc b "/" x))

-- and for one
pub segments_one :
    (a b x y : String)
    → Slashless a
    → Slashless b
    → (a ++ "/") ++ x ≡ (b ++ "/") ++ y
    → (a ≡ b) × (x ≡ y)
segments_one a b x y p q e =
    segments a b x y p q (sym (append_assoc a "/" x) ∙ e ∙ append_assoc b "/" y)
