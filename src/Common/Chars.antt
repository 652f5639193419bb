-- ===== src/Common/Chars.antt =====
-- Texts that the program walks, as lists of code points, with the methods of Python's str.
use Prim.Native.Nat.{ℕ}
use Prim.Native.Char.{code}
use Prim.Native.String.{String}
use mathlib.Core.Path.{◌≡◌, refl}
use mathlib.Core.Logic.{◌↔◌}
use mathlib.Core.Bool.{Bool, true, false, ◌&&◌, ◌||◌}
use mathlib.Core.List.{List, [], ◌∷◌, reverse}
use native.Mathlib.Omega.{arith}
use open_video_trans.Common.Tests.{leb, eqb, if◌then◌else◌}

abbrev pub Text : Type 0
Text = List ℕ

-- A literal as a text.
abbrev pub codes : String → Text
codes (String.◌∷◌ first others) = code first ∷ codes others
codes String.[] = []

-- `s == t`
abbrev pub eq_text : Text → Text → Bool
eq_text [] [] = true
eq_text (a ∷ s) (b ∷ t) = eqb a b && eq_text s t
eq_text _ _ = false

pub eq_text_iff : (s t : Text) → (eq_text s t ≡ true) ↔ (s ≡ t)
eq_text_iff [] [] = (λ _. refl, λ _. refl)
eq_text_iff [] (b ∷ t) = (λ e. cc, λ e. cc)
eq_text_iff (a ∷ s) [] = (λ e. cc, λ e. cc)
eq_text_iff (a ∷ s) (b ∷ t) =
    (λ e. ground (arith, (eq_text_iff s t).0), λ e. ground (arith, (eq_text_iff s t).1))

-- `c in s`
abbrev pub has : ℕ → Text → Bool
has c [] = false
has c (a ∷ s) = eqb c a || has c s

-- `any(p(c) for c in s)`
abbrev pub any_char : (ℕ → Bool) → Text → Bool
any_char p [] = false
any_char p (c ∷ s) = p c || any_char p s

-- `s in xs`
abbrev pub text_in : Text → List Text → Bool
text_in s [] = false
text_in s (x ∷ xs) = eq_text s x || text_in s xs

-- `str.isspace` of one character: the white space of Unicode that Python strips.
unfoldable pub is_space : ℕ → Bool
is_space c =
    leb 9 c && leb c 13
    || leb 28 c && leb c 32
    || eqb c 0x85
    || eqb c 0xa0
    || eqb c 0x1680
    || leb 0x2000 c && leb c 0x200a
    || leb 0x2028 c && leb c 0x2029
    || eqb c 0x202f
    || eqb c 0x205f
    || eqb c 0x3000

abbrev pub drop_while : (ℕ → Bool) → Text → Text
drop_while p [] = []
drop_while p (c ∷ s) = if p c then drop_while p s else c ∷ s

abbrev pub drop_while_end : (ℕ → Bool) → Text → Text
drop_while_end p s = reverse (drop_while p (reverse s))

-- `s.strip()`
unfoldable pub strip : Text → Text
unfolding is_space
strip s = drop_while_end is_space (drop_while is_space s)

-- `Path.read_text` over `Path.write_text` where the line separator is a line feed: a carriage
-- return, alone or before a line feed, is read as a line feed.
abbrev pub reread : Text → Text
reread [] = []
reread (c ∷ []) = (if eqb c b'\r' then b'\n' else c) ∷ []
reread (c ∷ d ∷ s) =
    let rest = reread (d ∷ s) in
    if eqb c b'\r' then (if eqb d b'\n' then rest else b'\n' ∷ rest) else c ∷ rest

pub reread_kept : (s : Text) → has b'\r' s ≡ false → reread s ≡ s
reread_kept [] h = refl
reread_kept (c ∷ []) h = ground (arith, h)
reread_kept (c ∷ d ∷ s) h = ground (arith, h, reread_kept (d ∷ s))
