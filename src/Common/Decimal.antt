-- ===== src/Common/Decimal.antt =====
-- Decimal print, as Python formats an integer, and a reader of it.
use Prim.Native.Nat.{ℕ, zero, suc, ◌+◌, ◌-◌, ◌*◌, ◌/◌, ◌%◌, ◌≤◌}
use mathlib.Core.Path.{◌≡◌, refl, ap, ◌∙◌}
use mathlib.Core.Bool.{Bool, ◌&&◌}
use mathlib.Core.List.{[], ◌∷◌, ◌++◌}
use native.Mathlib.Omega.{arith}
use open_video_trans.Common.Tests.{leb, if◌then◌else◌}
use open_video_trans.Common.Chars.{Text}
use open_video_trans.Common.Lists.{length}

abbrev zeros : ℕ → Text
zeros zero = []
zeros (suc n) = b'0' ∷ zeros n

-- The digits of a number, at most so many, in front of a text; none for 0.
abbrev pub digits_before : ℕ → ℕ → Text → Text
digits_before zero value text = text
digits_before (suc room) zero text = text
digits_before (suc room) (suc v) text =
    let last = suc v % 10 in digits_before room (suc v / 10) ((b'0' + last) ∷ text)

-- `f"{n}"`; a number has no more digits than it counts.
unfoldable pub show : ℕ → Text
show zero = b'0' ∷ []
show (suc v) = digits_before (suc v) (suc v) []

-- `f"{n:0wd}"` for a width.
unfoldable pub show_padded : ℕ → ℕ → Text
show_padded width n = let s = show n in zeros (width - length s) ++ s

-- A reader that knows nothing of the printer: it takes digits as long as there are some, and
-- answers with the number and the rest.
abbrev pub is_digit : ℕ → Bool
is_digit c = leb b'0' c && leb c b'9'

abbrev pub scan : ℕ → Text → ℕ × Text
scan n [] = (n, [])
scan n (c ∷ s) = if is_digit c then scan (n * 10 + (c - b'0')) s else (n, c ∷ s)

-- Reading one more digit.
scan_next : (v : ℕ) (text : Text) → scan (v / 10) ((b'0' + v % 10) ∷ text) ≡ scan v text
scan_next v text = ground arith

scan-digits_before :
    (room value : ℕ) (text : Text)
    → value ≤ room
    → scan 0 (digits_before room value text) ≡ scan value text
scan-digits_before zero value text fits = ap (λ v. scan v text) (omega (arith, fits))
scan-digits_before (suc room) zero text fits = refl
scan-digits_before (suc room) (suc v) text fits =
    scan-digits_before room (suc v / 10) ((b'0' + suc v % 10) ∷ text) (omega (arith, fits))
    ∙ scan_next (suc v) text

digits_before-append :
    (room value : ℕ) (text rest : Text)
    → digits_before room value text ++ rest ≡ digits_before room value (text ++ rest)
digits_before-append zero value text rest = refl
digits_before-append (suc room) zero text rest = refl
digits_before-append (suc room) (suc v) text rest =
    digits_before-append room (suc v / 10) ((b'0' + suc v % 10) ∷ text) rest

pub scan-show : (n : ℕ) (rest : Text) → scan 0 (show n ++ rest) ≡ scan n rest
unfolding show
scan-show zero rest = refl
scan-show (suc v) rest =
    ap (scan 0) (digits_before-append (suc v) (suc v) [] rest)
    ∙ scan-digits_before (suc v) (suc v) rest (omega arith)

scan-zeros : (k : ℕ) (s : Text) → scan 0 (zeros k ++ s) ≡ scan 0 s
scan-zeros zero s = refl
scan-zeros (suc k) s = scan-zeros k s

append-append : (xs ys zs : Text) → (xs ++ ys) ++ zs ≡ xs ++ (ys ++ zs)
append-append [] ys zs = refl
append-append (x ∷ xs) ys zs = ap (λ r. x ∷ r) (append-append xs ys zs)

-- A printed number, padded or not, is read back with what follows it.
pub scan-show_padded :
    (width n : ℕ) (rest : Text) → scan 0 (show_padded width n ++ rest) ≡ scan n rest
unfolding show_padded
scan-show_padded width n rest =
    ap (scan 0) (append-append (zeros (width - length (show n))) (show n) rest)
    ∙ scan-zeros (width - length (show n)) (show n ++ rest)
    ∙ scan-show n rest
