-- ===== src/Kernel/Timeline.antt =====
-- packages/autodub-core/src/autodub_core/ffmpeg_utils.py, the composed track and the speed-up of a
-- clip, and `assign_timing` of stages.py. Ratios are exact fractions, where the source computes in
-- floats.
pub mod Order
pub mod Drift
pub mod Fit
mod Tests
use open_video_trans.Common.{
  ℕ, zero, suc, ◌+◌, ◌-◌, ◌*◌, ◌/◌, ◌%◌, min, max, String, Bool, true, false, not, ◌||◌, ◌&&◌,
  Option, none, some, List, [], ◌∷◌, ◌++◌, ltb, leb, eqb, if◌then◌else◌, Result, ok, err, ◌>>=◌,
}

-- `round(a / b)`: to the nearest, a half to the even one.
abbrev pub round_div : ℕ → ℕ → ℕ
round_div a b =
    let q = a / b in
    let r = 2 * (a % b) in if ltb r b then q else if ltb b r then q + 1 else q + q % 2

-- CANON_SR
abbrev pub canon_sr : ℕ
canon_sr = 48_000

-- A wav file: its parameters and its frames.
pub record Wav : Type 0 where
  pub channels : ℕ
  pub sampwidth : ℕ
  pub rate : ℕ
  pub frames : ℕ

-- `wav_duration_ms(path)`
unfoldable pub wav_duration_ms : Wav → ℕ
wav_duration_ms w = if eqb w.rate 0 then 0 else round_div (w.frames * 1000) w.rate

-- `_silence_frames(ms, …)` at the canonical rate, in frames.
abbrev pub silence_frames : ℕ → ℕ
silence_frames ms = round_div (ms * canon_sr) 1000

abbrev pub is_canonical : Wav → Bool
is_canonical w = eqb w.channels 1 && eqb w.sampwidth 2 && eqb w.rate canon_sr

-- What is written to the composed track.
pub data Piece : Type 0 where
  silence : ℕ → Piece
  sound : Wav → Piece

-- `sorted(placements, key=start)`, which is stable.
abbrev pub insert_placement : ℕ × Wav → List (ℕ × Wav) → List (ℕ × Wav)
insert_placement p [] = p ∷ []
insert_placement p (q ∷ qs) =
    let later = q ∷ insert_placement p qs in if leb p.0 q.0 then p ∷ q ∷ qs else later

abbrev pub sort_placements : List (ℕ × Wav) → List (ℕ × Wav)
sort_placements [] = []
sort_placements (p ∷ ps) = insert_placement p (sort_placements ps)

-- The silence up to a time, if the head is before it.
abbrev pub fill_to : ℕ → ℕ → List Piece
fill_to time head = if ltb head time then silence (silence_frames (time - head)) ∷ [] else []

abbrev pub not_canonical : String
not_canonical = "stitch input is not canonical"

-- The loop over the placements, and the silence up to the end.
unfoldable pub stitch_from : ℕ → ℕ → List (ℕ × Wav) → Result String (List Piece)
stitch_from total head [] = ok (fill_to total head)
stitch_from total head ((start, w) ∷ placements) =
    let later = stitch_from total (max head start + wav_duration_ms w) placements in
    if not (is_canonical w)
    then err not_canonical
    else do pieces ← later; ok (fill_to start head ++ sound w ∷ pieces)

-- `stitch_timeline(placements, out_wav, total_ms)`
unfoldable pub stitch_timeline : List (ℕ × Wav) → ℕ → Result String (List Piece)
stitch_timeline placements total = stitch_from total 0 (sort_placements placements)

-- A factor of `atempo`, as a fraction.
abbrev pub Factor : Type 0
Factor = ℕ × ℕ

-- The loop of `atempo_chain_for` on what remains, a fraction. Each round doubles the denominator.
unfoldable pub chain_from : ℕ → ℕ → ℕ → List Factor
chain_from zero a b = []
chain_from (suc fuel) a b =
    let rest = chain_from fuel a (2 * b) in
    if ltb (2_000_001 * b) (1_000_000 * a)
    then (2, 1) ∷ rest
    else if ltb (1_000_001 * b) (1_000_000 * a)
    then (a, b) ∷ []
    else []

abbrev pub or_one : List Factor → List Factor
or_one [] = (1, 1) ∷ []
or_one (f ∷ factors) = f ∷ factors

-- `atempo_chain_for(ratio, max_total)` for `ratio = a / b` and a whole `max_total`: the ratio is
-- raised to 1 and capped first. The numerator is enough fuel.
unfoldable pub atempo_chain_for : ℕ → ℕ → ℕ → List Factor
atempo_chain_for a b max_total =
    let raised = max a b in
    let capped = min raised (max_total * b) in or_one (chain_from (suc capped) capped b)

-- MAX_SPEEDUP
abbrev pub max_speedup : ℕ
max_speedup = 2

-- `TimingPlan`, with the ratio in thousandths.
pub record TimingPlan : Type 0 where
  pub method : String
  pub atempo_chain : Option (List Factor)
  pub align_ratio : ℕ
  pub needs_review : Bool

-- `assign_timing(actual_ms, target_duration_ms, max_speedup)`
unfoldable pub assign_timing : ℕ → ℕ → TimingPlan
assign_timing actual_ms target_duration_ms =
    let target = max 1 target_duration_ms in
    let ratio = round_div (actual_ms * 1000) target in
    let fast = leb actual_ms (max_speedup * target) in
    if leb actual_ms target
    then record { method = "fit"; atempo_chain = none; align_ratio = ratio; needs_review = false }
    else record {
      method = if fast then "dsp" else "force_dsp";
      atempo_chain = some (atempo_chain_for actual_ms target max_speedup);
      align_ratio = ratio;
      needs_review = not fast;
    }
