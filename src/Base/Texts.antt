-- ===== src/Base/Texts.antt =====
-- Python's `str` as a list of code points, with `==`, `or`, `lower` and `strip`. The last two are
-- those of Python on ASCII text, which is what the program compares modes, roles and states with.
use Prim.Native.Nat.{ℕ, zero, suc, ◌+◌, ◌/◌, ◌%◌, ◌<◌}
use Prim.Native.Char.{code}
use Prim.Native.String.{String}
use mathlib.Core.Path.{◌≡◌, refl}
use mathlib.Core.Logic.{◌↔◌}
use mathlib.Core.Bool.{Bool, true, false, ◌&&◌, ◌||◌}
use mathlib.Core.List.{List, [], ◌∷◌, ◌++◌, map, reverse}
use native.Mathlib.Omega.{arith}
use dubbing_pipeline.Base.Lists.{length}
use dubbing_pipeline.Base.Tests.{◌==◌, leb, ltb, if◌then◌else◌}

abbrev pub Text : Type 0
Text = List ℕ

abbrev pub codes : String → Text
codes String.[] = []
codes (String.◌∷◌ c s) = code c ∷ codes s

unfoldable pub text_eq : Text → Text → Bool
text_eq [] [] = true
text_eq (a ∷ s) (b ∷ t) = a == b && text_eq s t
text_eq _ _ = false

pub text_eq_sound : (s t : Text) → text_eq s t ≡ true → s ≡ t
unfolding text_eq
text_eq_sound [] [] h = refl
text_eq_sound (a ∷ s) (b ∷ t) h = ground (arith, text_eq_sound s t)
text_eq_sound [] (b ∷ t) h = ground arith
text_eq_sound (a ∷ s) [] h = ground arith

pub text_eq_refl : (s : Text) → text_eq s s ≡ true
unfolding text_eq
text_eq_refl [] = refl
text_eq_refl (a ∷ s) = ground (arith, text_eq_refl s)

pub text_eq_complete : (s t : Text) → s ≡ t → text_eq s t ≡ true
text_eq_complete s t e = rw e (text_eq_refl t)

pub text_eq_iff : (s t : Text) → (text_eq s t ≡ true) ↔ (s ≡ t)
text_eq_iff s t = (text_eq_sound s t, text_eq_complete s t)

-- `s < t`
unfoldable pub text_ltb : Text → Text → Bool
text_ltb s [] = false
text_ltb [] (b ∷ t) = true
text_ltb (a ∷ s) (b ∷ t) = if ltb a b then true else if ltb b a then false else text_ltb s t

-- `not s`
abbrev pub is_empty : Text → Bool
is_empty [] = true
is_empty (c ∷ s) = false

pub is_empty-eq_false : (s : Text) → 0 < length s → is_empty s ≡ false
is_empty-eq_false [] h = absurd (omega arith)
is_empty-eq_false (c ∷ s) h = refl

-- `s or t`
abbrev pub or_else : Text → Text → Text
or_else [] t = t
or_else (c ∷ s) t = c ∷ s

lower_char : ℕ → ℕ
lower_char c = if leb b'A' c && leb c b'Z' then c + 32 else c

unfoldable pub lower : Text → Text
unfolding lower_char
lower = map lower_char

is_space : ℕ → Bool
is_space c = c == 32 || (leb 9 c && leb c 13) || (leb 28 c && leb c 31)

lstrip : Text → Text
lstrip [] = []
lstrip (c ∷ s) = if is_space c then lstrip s else c ∷ s

unfoldable pub strip : Text → Text
unfolding lstrip is_space
strip s = reverse (lstrip (reverse (lstrip s)))

-- s.startswith(p)
unfoldable pub starts_with : Text → Text → Bool
starts_with s [] = true
starts_with [] (d ∷ p) = false
starts_with (c ∷ s) (d ∷ p) = c == d && starts_with s p

-- s.split(".", 1)[1] of a text that has a dot
unfoldable pub after_dot : Text → Text
after_dot [] = []
after_dot (c ∷ s) = let rest = after_dot s in if c == b'.' then s else rest

digits : ℕ → ℕ → Text
digits zero n = []
digits (suc fuel) n =
    let more = digits fuel (n / 10) in
    if ltb n 10 then (48 + n) ∷ [] else more ++ (48 + n % 10) ∷ []

-- `str(n)`; a number has at most as many digits as its value and one
unfoldable pub show_ℕ : ℕ → Text
unfolding digits
show_ℕ n = digits (suc n) n
