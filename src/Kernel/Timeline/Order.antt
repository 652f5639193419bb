-- ===== src/Kernel/Timeline/Order.antt =====
-- The order in which the clips are placed: every clip once, by its time.
use open_video_trans.Common.{
  ℕ, ◌+◌, ◌≤◌, ◌≡◌, refl, List, [], ◌∷◌, arith, length, Bool-cases, inl, inr, leb,
}
use mathlib.Core.List.{Perm}
use mathlib.Core.List.Perm
use open_video_trans.Kernel.Timeline.{Wav, insert_placement, sort_placements}

-- No placement begins before the one in front of it, nor before a time.
abbrev pub InOrder : ℕ → List (ℕ × Wav) → Type 0
InOrder from [] = Unit {0}
InOrder from ((start, w) ∷ placements) = (from ≤ start) × InOrder start placements

insert_placement-InOrder :
    (from : ℕ) (p : ℕ × Wav) (qs : List (ℕ × Wav))
    → from ≤ p.0
    → InOrder from qs
    → InOrder from (insert_placement p qs)
insert_placement-InOrder from p [] le h = (le, tt)
insert_placement-InOrder from p (q ∷ qs) le h = elim (Bool-cases (leb p.0 q.0)) [
  | inl before ↦ rw before (le, (ground (arith, before), h.1))
  | inr after ↦ rw after (h.0, insert_placement-InOrder q.0 p qs (ground (arith, after)) h.1)
]

pub sort_placements-InOrder : (ps : List (ℕ × Wav)) → InOrder 0 (sort_placements ps)
sort_placements-InOrder [] = tt
sort_placements-InOrder (p ∷ ps) =
    insert_placement-InOrder 0 p (sort_placements ps) (omega arith) (sort_placements-InOrder ps)

insert_placement-Perm : (p : ℕ × Wav) (qs : List (ℕ × Wav)) → Perm (insert_placement p qs) (p ∷ qs)
insert_placement-Perm p [] = Perm.rfl
insert_placement-Perm p (q ∷ qs) = elim (Bool-cases (leb p.0 q.0)) [
  | inl before ↦ rw before Perm.rfl
  | inr after ↦ rw after (Perm.trans (Perm.cons q (insert_placement-Perm p qs)) (Perm.swap p q qs))
]

pub sort_placements-Perm : (ps : List (ℕ × Wav)) → Perm (sort_placements ps) ps
sort_placements-Perm [] = Perm.rfl
sort_placements-Perm (p ∷ ps) =
    Perm.trans (insert_placement-Perm p (sort_placements ps))
      (Perm.cons p (sort_placements-Perm ps))

length-insert_placement :
    (p : ℕ × Wav) (qs : List (ℕ × Wav)) → length (insert_placement p qs) ≡ length qs + 1
length-insert_placement p [] = omega arith
length-insert_placement p (q ∷ qs) = ground (arith, length-insert_placement p qs)

pub length-sort_placements : (ps : List (ℕ × Wav)) → length (sort_placements ps) ≡ length ps
length-sort_placements [] = refl
length-sort_placements (p ∷ ps) =
    omega (arith, length-insert_placement p (sort_placements ps), length-sort_placements ps)
