-- ===== src/Base/Text.antt =====
-- Go's `strings.Contains` and `strings.ToLower`, over the code points of a text. Two texts in UTF-8
-- are one inside the other exactly if their code points are.
use Prim.Native.Char.{code}
use Prim.Native.Nat.{ℕ, ◌+◌}
use Prim.Native.String.{String, ◌++◌ as ◌<>◌}
use Prim.Native.String.append
use mathlib.Core.Path.{◌≡◌, refl, ap, ◌∙◌}
use mathlib.Core.Bool.{Bool, true, false, ◌&&◌, ◌||◌}
use mathlib.Core.List.{List, [], ◌∷◌, ◌++◌, map, map-append}
use native.Mathlib.Omega.{arith}
use internal_transfers_syste.Base.Tests.{leb, ◌==◌, if◌then◌else◌}

unfoldable pub codes : String → List ℕ
codes String.[] = []
codes (String.◌∷◌ c s) = code c ∷ codes s

pub codes-append : (s t : String) → codes (s <> t) ≡ codes s ++ codes t
unfolding codes
codes-append String.[] t = ap codes (append.nil t)
codes-append (String.◌∷◌ c s) t =
    ap codes (append.cons c s t) ∙ ap (λ l. code c ∷ l) (codes-append s t)

-- `strings.HasPrefix(s, p)`
unfoldable pub has_prefix : List ℕ → List ℕ → Bool
has_prefix s [] = true
has_prefix [] (d ∷ p) = false
has_prefix (c ∷ s) (d ∷ p) = c == d && has_prefix s p

-- `strings.Contains(s, p)`
unfoldable pub contains : List ℕ → List ℕ → Bool
unfolding has_prefix
contains [] p = has_prefix [] p
contains (c ∷ s) p = has_prefix (c ∷ s) p || contains s p

-- `unicode.ToLower` as far as a test for an ASCII text can see it: ASCII letters, and the two other
-- code points (the dotted I, the Kelvin sign) whose lower case is ASCII.
abbrev pub lower_code : ℕ → ℕ
lower_code c =
    if leb b'A' c && leb c b'Z'
    then c + 32
    else if c == 0x130
    then b'i'
    else if c == 0x212a
    then b'k'
    else c

-- `strings.ToLower(s)`
unfoldable pub to_lower : String → List ℕ
unfolding codes
to_lower s = map lower_code (codes s)

pub to_lower-append : (s t : String) → to_lower (s <> t) ≡ to_lower s ++ to_lower t
unfolding to_lower
to_lower-append s t =
    ap (map lower_code) (codes-append s t) ∙ map-append lower_code (codes s) (codes t)

pub has_prefix-append : (p s : List ℕ) → has_prefix (p ++ s) p ≡ true
unfolding has_prefix
has_prefix-append [] s = refl
has_prefix-append (c ∷ p) s = ground (arith, has_prefix-append p s)

has_prefix-append_right : (s t p : List ℕ) → has_prefix s p ≡ true → has_prefix (s ++ t) p ≡ true
unfolding has_prefix
has_prefix-append_right s t [] h = refl
has_prefix-append_right [] t (d ∷ p) h = cc
has_prefix-append_right (c ∷ s) t (d ∷ p) h = ground (arith, has_prefix-append_right s t p)

-- What holds a text still holds it with more behind it, and with more in front.
pub contains-append_left : (s t p : List ℕ) → contains s p ≡ true → contains (s ++ t) p ≡ true
unfolding contains
contains-append_left [] [] p h = h
contains-append_left [] (c ∷ t) [] h = refl
contains-append_left [] (c ∷ t) (d ∷ p) h = cc
contains-append_left (c ∷ s) t p h =
    ground (arith, has_prefix-append_right (c ∷ s) t p, contains-append_left s t p)

pub contains-append_right : (s t p : List ℕ) → contains t p ≡ true → contains (s ++ t) p ≡ true
unfolding contains
contains-append_right [] t p h = h
contains-append_right (c ∷ s) t p h = ground (arith, contains-append_right s t p h)
