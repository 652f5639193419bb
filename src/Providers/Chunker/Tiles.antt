-- ===== src/Providers/Chunker/Tiles.antt =====
-- The request plan of asr_chunker.py covers the audio.
use open_video_trans.Common.{
  ℕ, zero, suc, ◌+◌, ◌-◌, ◌*◌, ◌/◌, ◌%◌, ◌≤◌, ◌<◌, min, max, ◌≡◌, refl, sym, subst, inl, inr, true,
  false, Option, none, some, List, [], ◌∷◌, eqb, Result, ok, >>=-eq-ok, ok_inj, arith, All,
  Bool-cases,
}
use native.Mathlib.Nat.{div-add-mod', mod-lt, suc-mul, add-mul, one-mul, zero-mul}
use open_video_trans.Providers.Chunker.{
  Codec, AudioConstraints, Chunk, chunk_file, negotiate_codec, over, within_limits, fits_estimate,
  tightest, limit_of, chunk_duration_ms, ceil_div, encoded, chunks_from, split, whole,
  plan_requests,
}

-- The chunks follow one another without a gap or an overlap, from one time to another.
abbrev pub Tiles : ℕ → ℕ → List Chunk → Type 0
Tiles from to [] = from ≡ to
Tiles from to (c ∷ chunks) = (c.offset_ms ≡ from) × Tiles (from + c.duration_ms) to chunks

abbrev pub AtMost : ℕ → List Chunk → Type 0
AtMost cap chunks = All (λ (c : Chunk). c.duration_ms ≤ cap) chunks

-- The number of chunks is just enough.
ceil_div_lem :
    (total chunk : ℕ)
    → 0 < total
    → 0 < chunk
    → (k : ℕ) × (max 1 (ceil_div total chunk) ≡ suc k)
      × (k * chunk < total)
      × (total ≤ k * chunk + chunk)
ceil_div_lem total chunk some_audio real =
    let t = total + (chunk - 1) in
    let q = t / chunk in
    let facts = div-add-mod' t chunk in
    let small = mod-lt t real in
    elim q
        as (λ q.
          q * chunk + t % chunk ≡ t
          → (k : ℕ) × (max 1 q ≡ suc k) × (k * chunk < total) × (total ≤ k * chunk + chunk)) [
            | zero ↦ λ f. absurd (omega (arith, f, small, zero-mul chunk))
            | suc k ↦ λ f. (
              k,
              omega arith,
              omega (arith, f, small, suc-mul k chunk),
              omega (arith, f, small, suc-mul k chunk),
            )
          ]
      facts

module _ (encode : Codec → ℕ → ℕ → Result (Unit {0}) ℕ) (codec : Codec) (chunk total : ℕ) where
  abbrev head : ℕ → Chunk
  head i = record {
    path = chunk_file i codec;
    offset_ms = i * chunk;
    duration_ms = min (i * chunk + chunk) total - i * chunk;
  }

  chunks_from-eq-ok :
      (k i : ℕ) (chunks : List Chunk)
      → chunks_from encode codec chunk total i (suc k) ≡ ok chunks
      → (tail : List Chunk) × (chunks_from encode codec chunk total (i + 1) k ≡ ok tail)
        × (head i ∷ tail ≡ chunks)
  unfolding chunks_from
  chunks_from-eq-ok k i chunks e =
      let (size, made, rest) =
        >>=-eq-ok (encoded encode codec (i * chunk) (min (i * chunk + chunk) total)) _ e in
      let (tail, later, same) = >>=-eq-ok (chunks_from encode codec chunk total (i + 1) k) _ rest in
      (tail, later, ok_inj same)

  Covers : ℕ → List Chunk → Type 0
  Covers at chunks = Tiles at total chunks × AtMost chunk chunks

  pub chunks_from-Tiles :
      (k i : ℕ) (chunks : List Chunk)
      → i * chunk + k * chunk < total
      → total ≤ i * chunk + k * chunk + chunk
      → chunks_from encode codec chunk total i (suc k) ≡ ok chunks
      → Tiles (i * chunk) total chunks × AtMost chunk chunks
  unfolding chunks_from Covers
  chunks_from-Tiles zero i chunks below above e =
      let (tail, later, same) = chunks_from-eq-ok zero i chunks e in
      let last : [] ≡ tail = ok_inj later in
      let none_left = zero-mul chunk in
      subst (Covers (i * chunk)) same (
        subst (λ tail. Covers (i * chunk) (head i ∷ tail)) last
          ((refl, omega (arith, below, above, none_left)), (omega arith, tt)))
  chunks_from-Tiles (suc k) i chunks below above e =
      let (tail, later, same) = chunks_from-eq-ok (suc k) i chunks e in
      let next : (i + 1) * chunk ≡ i * chunk + chunk =
        omega (arith, add-mul i 1 chunk, one-mul chunk) in
      let more = suc-mul k chunk in
      let (tiles, short) =
        chunks_from-Tiles k (i + 1) tail (omega (arith, below, next, more))
          (omega (arith, above, next, more)) later in
      let full : (i + 1) * chunk ≡ i * chunk + (head i).duration_ms =
        omega (arith, next, below, more) in
      subst (Covers (i * chunk)) same
        ((refl, subst (λ at. Tiles at total tail) full tiles), (omega arith, short))

tightest_positive : (total : ℕ) (d b : Option ℕ) → 0 < total → 0 < tightest total d b
tightest_positive total none none h = h
tightest_positive total (some d) none h = omega arith
tightest_positive total none (some b) h = omega arith
tightest_positive total (some d) (some b) h = omega arith

tightest-le : (total d : ℕ) (b : Option ℕ) → 0 < d → tightest total (some d) b ≤ d
tightest-le total d none h = omega arith
tightest-le total d (some b) h = omega arith

AtMost-le :
    (small large : ℕ) (chunks : List Chunk)
    → small ≤ large
    → AtMost small chunks
    → AtMost large chunks
AtMost-le small large [] h all = tt
AtMost-le small large (c ∷ chunks) h all =
    (omega (arith, h, all.0), AtMost-le small large chunks h all.1)

-- What a plan must be: the chunks tile the audio, and none is longer than the provider accepts.
pub record IsPlan (total : ℕ) (c : AudioConstraints) (chunks : List Chunk) : Type 0 where
  pub tiles : Tiles 0 total chunks
  pub short : (d : ℕ) → c.max_duration_ms ≡ some d → 0 < d → AtMost d chunks

over-zero : (o : Option ℕ) → over 0 o ≡ false
over-zero none = refl
over-zero (some cap) = ground arith

within_limits-over :
    (size total : ℕ) (c : AudioConstraints)
    → within_limits size total c ≡ true
    → over total c.max_duration_ms ≡ false
unfolding within_limits
within_limits-over size total c e = ground (arith, e)

module _ (encode : Codec → ℕ → ℕ → Result (Unit {0}) ℕ) where
  split-IsPlan :
      (total : ℕ) (c : AudioConstraints) (chunks : List Chunk)
      → 0 < total
      → split encode c total ≡ ok chunks
      → IsPlan total c chunks
  unfolding split chunk_duration_ms
  split-IsPlan total c chunks audio e =
      let (codec, agreed, rest) = >>=-eq-ok (negotiate_codec c) _ e in
      let chunk = chunk_duration_ms total c codec in
      let real = tightest_positive total c.max_duration_ms (limit_of codec c.max_bytes) audio in
      let (k, count, below, above) = ceil_div_lem total chunk audio real in
      let (tiles, short) =
        chunks_from-Tiles encode codec chunk total k 0 chunks (omega (arith, below, zero-mul chunk))
          (omega (arith, above, zero-mul chunk)) (rw count at rest) in
      record {
        tiles = subst (λ at. Tiles at total chunks) (zero-mul chunk) tiles;
        short = λ d capped some_cap.
            AtMost-le chunk d chunks
              (subst (λ o. tightest total o (limit_of codec c.max_bytes) ≤ d) (sym capped)
                (tightest-le total d (limit_of codec c.max_bytes) some_cap))
              short;
      }

  whole-IsPlan :
      (codec : Codec) (total : ℕ) (c : AudioConstraints) (chunks : List Chunk)
      → over total c.max_duration_ms ≡ false
      → whole encode codec total ≡ chunks
      → IsPlan total c chunks
  whole-IsPlan codec total c chunks inside same = subst (IsPlan total c) same (record {
    tiles = (refl, omega arith);
    short = λ d capped some_cap. (ground (arith, rw capped at inside), tt);
  })

  -- Every plan of `plan_requests` covers the audio without a gap or an overlap, and where the
  -- provider caps the duration, at 1 ms at least, no chunk is longer than the cap.
  pub plan_requests-IsPlan :
      (total : ℕ) (c : AudioConstraints) (chunks : List Chunk)
      → plan_requests encode total c ≡ ok chunks
      → IsPlan total c chunks
  unfolding plan_requests
  plan_requests-IsPlan total c chunks e =
      let (codec, agreed, rest) = >>=-eq-ok (negotiate_codec c) _ e in
      elim (Bool-cases (eqb total 0)) [
        | inl silent ↦
            let (size, made, same) = >>=-eq-ok (encoded encode codec 0 0) _ (rw silent at rest) in
            let none_left : 0 ≡ total = ground arith in
            subst (λ t. IsPlan t c chunks) none_left
              (whole-IsPlan codec 0 c chunks (over-zero c.max_duration_ms) (ok_inj same))
        | inr audio ↦ elim (Bool-cases (fits_estimate total c codec)) [
          | inr large ↦ split-IsPlan total c chunks (ground arith) (rw (audio, large) at rest)
          | inl fits ↦
              let (size, made, last) =
                >>=-eq-ok (encoded encode codec 0 total) _ (rw (audio, fits) at rest) in
              elim (Bool-cases (within_limits size total c)) [
                | inr big ↦ split-IsPlan total c chunks (ground arith) (rw big at last)
                | inl inside ↦
                    whole-IsPlan codec total c chunks (within_limits-over size total c inside)
                      (ok_inj (rw inside at last))
              ]
        ]
      ]
