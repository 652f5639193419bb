-- ===== src/Kernel/Subtitles/RoundTrip.antt =====
-- The subtitle file read back by a reader that does not know how it was written.
use open_video_trans.Common.{
  ℕ, ◌+◌, ◌*◌, ◌/◌, ◌%◌, ◌≡◌, refl, ap, ◌∙◌, true, false, Option, none, some, List, [], ◌∷◌, ◌++◌,
  eqb, if◌then◌else◌, arith,
}
use open_video_trans.Common.Chars.{Text, codes}
use open_video_trans.Common.Decimal.{show, show_padded, scan, scan-show, scan-show_padded, is_digit}
use open_video_trans.Kernel.Subtitles.{clock, ts, SrtCue, cue_lines, after_line, join_lines}

-- A character that has to come next, and the text after it.
abbrev pub expect : ℕ → ℕ × Text → Option (ℕ × Text)
expect c (n, []) = none
expect c (n, d ∷ s) = if eqb c d then some (n, s) else none

infixl 5 ◌then_read◌
abbrev pub ◌then_read◌ {ℓ κ} : {A : Type ℓ} {B : Type κ} → Option A → (A → Option B) → Option B
none then_read f = none
some a then_read f = f a

-- `hours:minutes:seconds,milliseconds` as milliseconds, with the text after it.
abbrev pub read_ts : Text → Option (ℕ × Text)
read_ts s = expect b':' (scan 0 s) then_read λ h. expect b':' (scan 0 h.1) then_read λ m.
    expect b',' (scan 0 m.1) then_read λ sec.
    some (((h.0 * 60 + m.0) * 60 + sec.0) * 1000 + (scan 0 sec.1).0, (scan 0 sec.1).1)

abbrev pub skip : Text → Text → Option Text
skip [] s = some s
skip (c ∷ word) [] = none
skip (c ∷ word) (d ∷ s) = if eqb c d then skip word s else none

-- The number, the start and the end of the cue at the head of a file, and what follows.
abbrev pub read_cue : Text → Option (ℕ × ℕ × ℕ × Text)
read_cue s = expect b'\n' (scan 0 s) then_read λ n. read_ts n.1 then_read λ from.
    skip (codes " --> ") from.1 then_read λ arrow.
    read_ts arrow then_read λ to. some (n.0, from.0, to.0, to.1)

append-append : (xs ys zs : Text) → (xs ++ ys) ++ zs ≡ xs ++ (ys ++ zs)
append-append [] ys zs = refl
append-append (x ∷ xs) ys zs = ap (λ r. x ∷ r) (append-append xs ys zs)

ts_value :
    (ms : ℕ)
    → ((ms / 3_600_000 * 60 + ms % 3_600_000 / 60_000) * 60 + ms % 3_600_000 % 60_000 / 1000) * 1000
        + ms % 3_600_000 % 60_000 % 1000
      ≡ ms
ts_value ms = omega arith

-- A printed number is read up to the separator after it.
read_field :
    (c width n : ℕ) (rest : Text)
    → is_digit c ≡ false
    → eqb c c ≡ true
    → expect c (scan 0 (show_padded width n ++ c ∷ rest)) ≡ some (n, rest)
read_field c width n rest h same =
    ap (expect c) (scan-show_padded width n (c ∷ rest)) ∙ rw (h, same) refl

-- The text after a number does not go on with a digit.
abbrev Ends : Text → Type 0
Ends rest = (n : ℕ) → scan n rest ≡ (n, rest)

clock-append :
    (h m s ms : ℕ) (rest : Text)
    → clock h m s ms ++ rest
      ≡ show_padded 2 h
        ++ b':' ∷ (show_padded 2 m ++ b':' ∷ (show_padded 2 s ++ b',' ∷ (show_padded 3 ms ++ rest)))
clock-append h m s ms rest =
    append-append (show_padded 2 h)
      (b':' ∷ (show_padded 2 m ++ b':' ∷ (show_padded 2 s ++ b',' ∷ show_padded 3 ms))) rest
    ∙ ap (λ r. show_padded 2 h ++ b':' ∷ r)
        (append-append (show_padded 2 m) (b':' ∷ (show_padded 2 s ++ b',' ∷ show_padded 3 ms)) rest
          ∙ ap (λ r. show_padded 2 m ++ b':' ∷ r)
              (append-append (show_padded 2 s) (b',' ∷ show_padded 3 ms) rest))

read_ts-clock :
    (h m s ms : ℕ) (rest : Text)
    → Ends rest
    → read_ts (clock h m s ms ++ rest) ≡ some (((h * 60 + m) * 60 + s) * 1000 + ms, rest)
read_ts-clock h m s ms rest ends =
    rw
      (
        clock-append h m s ms rest,
        read_field b':' 2 h
            (show_padded 2 m ++ b':' ∷ (show_padded 2 s ++ b',' ∷ (show_padded 3 ms ++ rest))) refl
            refl,
        read_field b':' 2 m (show_padded 2 s ++ b',' ∷ (show_padded 3 ms ++ rest)) refl refl,
        read_field b',' 2 s (show_padded 3 ms ++ rest) refl refl,
        scan-show_padded 3 ms rest,
        ends ms,
      )
      refl

-- A printed time is read back, with what follows it.
read_ts-ts : (ms : ℕ) (rest : Text) → Ends rest → read_ts (ts ms ++ rest) ≡ some (ms, rest)
unfolding ts
read_ts-ts ms rest ends =
    read_ts-clock (ms / 3_600_000) (ms % 3_600_000 / 60_000) (ms % 3_600_000 % 60_000 / 1000)
      (ms % 3_600_000 % 60_000 % 1000) rest ends
    ∙ ap (λ n. some (n, rest)) (ts_value ms)

after_line-Ends : (lines : List Text) → Ends (after_line lines)
after_line-Ends [] n = refl
after_line-Ends (l ∷ lines) n = refl

-- The number and the window of each cue are read back from the text, whatever its body is and
-- whatever follows it.
pub read_cue-cue_lines :
    (c : SrtCue) (rest : List Text)
    → read_cue (join_lines (cue_lines c ++ rest))
      ≡ some (c.number, c.start_ms, c.end_ms, after_line ((c.body ++ [] ∷ []) ++ rest))
read_cue-cue_lines c rest =
    let body = after_line ((c.body ++ [] ∷ []) ++ rest) in
    let times = ts c.start_ms ++ (codes " --> " ++ ts c.end_ms) in
    let number : scan 0 (show c.number ++ b'\n' ∷ (times ++ body))
        ≡ (c.number, b'\n' ∷ (times ++ body)) =
      scan-show c.number (b'\n' ∷ (times ++ body)) in
    rw
      (
        number,
        append-append (ts c.start_ms) (codes " --> " ++ ts c.end_ms) body,
        read_ts-ts c.start_ms ((codes " --> " ++ ts c.end_ms) ++ body) (λ n. refl),
        read_ts-ts c.end_ms body (after_line-Ends ((c.body ++ [] ∷ []) ++ rest)),
      )
      refl
