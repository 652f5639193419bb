-- ===== src/Kernel/Timeline/Drift.antt =====
-- Where the clips of the composed track begin, and its length.
use open_video_trans.Common.{
  ℕ, ◌+◌, ◌-◌, ◌*◌, ◌≤◌, ◌≡◌, refl, ap, sym, subst, max, true, List, [], ◌∷◌, ◌++◌, arith, length,
  Bool-cases, inl, inr, ltb, eqb, if◌then◌else◌, ok, err, >>=-eq-ok, ok_inj,
}
use mathlib.Core.List.{Perm}
use open_video_trans.Kernel.Timeline.{
  round_div, Wav, wav_duration_ms, silence_frames, is_canonical, Piece, silence, sound,
  sort_placements, fill_to, not_canonical, stitch_from, stitch_timeline,
}
use open_video_trans.Kernel.Timeline.Order.{
  InOrder, sort_placements-InOrder, sort_placements-Perm, length-sort_placements,
}

-- The frames of a track.
abbrev pub track_frames : List Piece → ℕ
track_frames [] = 0
track_frames (silence n ∷ pieces) = n + track_frames pieces
track_frames (sound w ∷ pieces) = w.frames + track_frames pieces

-- When the placements end, if each starts at its time or at the end of the one before.
abbrev pub end_ms : ℕ → List (ℕ × Wav) → ℕ
end_ms head [] = head
end_ms head ((start, w) ∷ placements) = end_ms (max head start + wav_duration_ms w) placements

silence_frames_exact : (ms : ℕ) → silence_frames ms ≡ 48 * ms
silence_frames_exact ms = ground arith

round_near :
    (f : ℕ)
    → (48 * round_div (f * 1000) 48_000 ≤ f + 24) × (f ≤ 48 * round_div (f * 1000) 48_000 + 24)
round_near f = ground arith

-- The rounding of a canonical clip's duration is off by half a millisecond at most.
duration_near :
    (w : Wav)
    → is_canonical w ≡ true
    → (48 * wav_duration_ms w ≤ w.frames + 24) × (w.frames ≤ 48 * wav_duration_ms w + 24)
unfolding wav_duration_ms
duration_near w h =
    let at_rate : w.rate ≡ 48_000 = ground (arith, h) in
    let same : wav_duration_ms w ≡ round_div (w.frames * 1000) 48_000 =
      ap (λ r. if eqb r 0 then 0 else round_div (w.frames * 1000) r) at_rate in
    rw same (round_near w.frames)

track_frames-append :
    (xs ys : List Piece) → track_frames (xs ++ ys) ≡ track_frames xs + track_frames ys
track_frames-append [] ys = omega arith
track_frames-append (silence n ∷ xs) ys = omega (arith, track_frames-append xs ys)
track_frames-append (sound w ∷ xs) ys = omega (arith, track_frames-append xs ys)

fill_frames : (time head : ℕ) → 48 * head + track_frames (fill_to time head) ≡ 48 * max head time
fill_frames time head = elim (Bool-cases (ltb head time)) [
  | inl before ↦ rw before (ground (arith, before, silence_frames_exact (time - head)))
  | inr past ↦ rw past (ground (arith, past))
]

-- The frames after the head lead to the end of the video or of the last clip, whichever is later,
-- up to half a millisecond for each clip.
abbrev pub Reaches : ℕ → ℕ → List (ℕ × Wav) → List Piece → Type 0
Reaches total head placements pieces =
    (48 * max total (end_ms head placements)
      ≤ 48 * head + track_frames pieces + 24 * length placements)
    × (48 * head + track_frames pieces
        ≤ 48 * max total (end_ms head placements) + 24 * length placements)

stitch_from-Reaches :
    (total head : ℕ) (placements : List (ℕ × Wav)) (pieces : List Piece)
    → stitch_from total head placements ≡ ok pieces
    → Reaches total head placements pieces
unfolding stitch_from
stitch_from-Reaches total head [] pieces e =
    subst (Reaches total head []) (ok_inj e) (ground (arith, fill_frames total head))
stitch_from-Reaches total head ((start, w) ∷ placements) pieces e =
    elim (Bool-cases (is_canonical w)) [
      | inr odd ↦ let raised : err not_canonical ≡ ok pieces = rw odd at e in cc
      | inl fine ↦
          let next = max head start + wav_duration_ms w in
          let (rest, later, same) =
            >>=-eq-ok (stitch_from total next placements)
              (λ ps. ok (fill_to start head ++ sound w ∷ ps)) (rw fine at e) in
          let ih = stitch_from-Reaches total next placements rest later in
          let near = duration_near w fine in
          subst (Reaches total head ((start, w) ∷ placements)) (ok_inj same) (
            omega (
              arith,
              ih.0,
              near.0,
              near.1,
              fill_frames start head,
              track_frames-append (fill_to start head) (sound w ∷ rest),
            ),
            omega (
              arith,
              ih.1,
              near.0,
              near.1,
              fill_frames start head,
              track_frames-append (fill_to start head) (sound w ∷ rest),
            ),
          )
    ]

-- The clips of a track with the frames at which they begin, from a frame on.
abbrev pub sounds : ℕ → List Piece → List (ℕ × Wav)
sounds at [] = []
sounds at (silence n ∷ pieces) = sounds (at + n) pieces
sounds at (sound w ∷ pieces) = (at, w) ∷ sounds (at + w.frames) pieces

-- When the clips should begin, in milliseconds: each at its time or at the end of the one before.
abbrev pub due : ℕ → List (ℕ × Wav) → List (ℕ × Wav)
due head [] = []
due head ((start, w) ∷ placements) =
    (max head start, w) ∷ due (max head start + wav_duration_ms w) placements

-- The same clips, the first up to `slack` frames off its time and each of the others up to 24 more
-- than the one before it.
abbrev pub IsClose : ℕ → List (ℕ × Wav) → List (ℕ × Wav) → Type 0
IsClose slack [] [] = Unit {0}
IsClose slack ((frame, w) ∷ found) ((ms, v) ∷ expected) =
    (w ≡ v)
    × (48 * ms ≤ frame + slack)
    × (frame ≤ 48 * ms + slack)
    × IsClose (slack + 24) found expected
IsClose _ _ _ = ⊥

-- The silence before a clip leads to its time.
sounds-fill_to :
    (at head start : ℕ) (pieces : List Piece)
    → sounds at (fill_to start head ++ pieces) ≡ sounds (at + 48 * (start - head)) pieces
sounds-fill_to at head start pieces = elim (Bool-cases (ltb head start)) [
  | inl before ↦ rw before (ap (λ n. sounds (at + n) pieces) (silence_frames_exact (start - head)))
  | inr past ↦
      let stay : at ≡ at + 48 * (start - head) = ground (arith, past) in
      rw past (ap (λ n. sounds n pieces) stay)
]

sounds-fill_to_end : (at head time : ℕ) → sounds at (fill_to time head) ≡ []
sounds-fill_to_end at head time = elim (Bool-cases (ltb head time)) [
  | inl before ↦ rw before refl
  | inr past ↦ rw past refl
]

stitch_from-IsClose :
    (total head at slack : ℕ) (placements : List (ℕ × Wav)) (pieces : List Piece)
    → 48 * head ≤ at + slack
    → at ≤ 48 * head + slack
    → stitch_from total head placements ≡ ok pieces
    → IsClose slack (sounds at pieces) (due head placements)
unfolding stitch_from
stitch_from-IsClose total head at slack [] pieces early late e =
    subst (λ ps. IsClose slack (sounds at ps) []) (ok_inj e)
      (subst (λ found. IsClose slack found []) (sym (sounds-fill_to_end at head total)) tt)
stitch_from-IsClose total head at slack ((start, w) ∷ placements) pieces early late e =
    elim (Bool-cases (is_canonical w)) [
      | inr odd ↦ let raised : err not_canonical ≡ ok pieces = rw odd at e in cc
      | inl fine ↦
          let next = max head start + wav_duration_ms w in
          let frame = at + 48 * (start - head) in
          let (rest, later, same) =
            >>=-eq-ok (stitch_from total next placements)
              (λ ps. ok (fill_to start head ++ sound w ∷ ps)) (rw fine at e) in
          let near = duration_near w fine in
          let begins : 48 * max head start ≤ frame + slack = ground (arith, early) in
          let begun : frame ≤ 48 * max head start + slack = ground (arith, late) in
          let others =
            stitch_from-IsClose total next (frame + w.frames) (slack + 24) placements rest
              (omega (arith, begins, near.0)) (omega (arith, begun, near.1)) later in
          subst (λ ps. IsClose slack (sounds at ps) (due head ((start, w) ∷ placements)))
            (ok_inj same)
            (subst (λ found. IsClose slack found (due head ((start, w) ∷ placements)))
              (sym (sounds-fill_to at head start (sound w ∷ rest))) (refl, begins, begun, others))
    ]

-- The composed track, of 48 frames a millisecond, holds every placed clip once, in an order of their
-- times. The clips begin at their times or at the end of the clip before: the first exactly, and
-- each of the others up to 24 frames more off than the one before it, as durations are rounded to
-- milliseconds. The track ends where the video ends or the last clip does, up to 24 frames for each
-- clip.
pub stitch_timeline_near :
    (placements : List (ℕ × Wav)) (total : ℕ) (pieces : List Piece)
    → stitch_timeline placements total ≡ ok pieces
    → (order : List (ℕ × Wav)) × Perm order placements
      × InOrder 0 order
      × IsClose 0 (sounds 0 pieces) (due 0 order)
      × (48 * max total (end_ms 0 order) ≤ track_frames pieces + 24 * length placements)
      × (track_frames pieces ≤ 48 * max total (end_ms 0 order) + 24 * length placements)
unfolding stitch_timeline
stitch_timeline_near placements total pieces e =
    let order = sort_placements placements in
    let near = stitch_from-Reaches total 0 order pieces e in
    (
      order,
      sort_placements-Perm placements,
      sort_placements-InOrder placements,
      stitch_from-IsClose total 0 0 0 order pieces (omega arith) (omega arith) e,
      omega (arith, near.0, length-sort_placements placements),
      omega (arith, near.1, length-sort_placements placements),
    )
