-- ===== src/Kernel/Isolation/Roots.antt =====
-- `job_root` of isolation.py: where it points, and that no two jobs share a directory.
use mathlib.Core.List.{append-nil, append_assoc}
use open_video_trans.Common.{
  ◌≡◌, refl, sym, ◌∙◌, inl, inr, true, false, List, [], ◌∷◌, ◌++◌, ok, ◌>>=◌, arith, All,
  All-append, Result-cases, Bool-cases, >>=-eq-ok,
}
use open_video_trans.Common.Chars.{Text, codes, eq_text, eq_text_iff}
use open_video_trans.Kernel.Isolation.{
  safe_component, join_path, parent, collapse, resolve, is_relative_to, ensure_within, job_root,
}
use open_video_trans.Kernel.Isolation.Components.{
  IsComponent, safe_component-IsComponent, join_path-component,
}

-- No component is "..".
abbrev pub IsPlain : List Text → Type 0
IsPlain path = All (λ p. eq_text p (codes "..") ≡ false) path

parent-IsPlain : (path : List Text) → IsPlain path → IsPlain (parent path)
parent-IsPlain [] h = tt
parent-IsPlain (p ∷ []) h = tt
parent-IsPlain (p ∷ q ∷ ps) h = (h.0, parent-IsPlain (q ∷ ps) h.1)

collapse-IsPlain : (done ps : List Text) → IsPlain done → IsPlain (collapse done ps)
collapse-IsPlain done [] h = h
collapse-IsPlain done (p ∷ ps) h = elim (Bool-cases (eq_text p (codes ".."))) [
  | inl up ↦ rw up (collapse-IsPlain (parent done) ps (parent-IsPlain done h))
  | inr down ↦
      rw down (collapse-IsPlain (done ++ p ∷ []) ps (All-append _ done (p ∷ []) h (down, tt)))
]

collapse_plain : (done ps : List Text) → IsPlain ps → collapse done ps ≡ done ++ ps
collapse_plain done [] h = sym (append-nil done)
collapse_plain done (p ∷ ps) h =
    rw h.0 (collapse_plain (done ++ p ∷ []) ps h.1 ∙ append_assoc done (p ∷ []) ps)

pub resolve_plain : (path : List Text) → IsPlain path → resolve path ≡ path
unfolding resolve
resolve_plain path h = collapse_plain [] path h

pub resolve-IsPlain : (path : List Text) → IsPlain (resolve path)
unfolding resolve
resolve-IsPlain path = collapse-IsPlain [] path tt

is_relative_to-append : (root rest : List Text) → is_relative_to (root ++ rest) root ≡ true
is_relative_to-append [] [] = refl
is_relative_to-append [] (r ∷ rest) = refl
is_relative_to-append (p ∷ root) rest =
    rw (is_relative_to-append root rest, (eq_text_iff p p).1 refl)

-- A path made of a resolved root and plain components passes the containment check as it is.
pub ensure_within-append :
    (root rest : List Text)
    → IsPlain root
    → IsPlain rest
    → ensure_within root (root ++ rest) ≡ ok (root ++ rest)
unfolding ensure_within
ensure_within-append root rest hr hs =
    rw (resolve_plain root hr, resolve_plain (root ++ rest) (All-append _ root rest hr hs))
      (rw (is_relative_to-append root rest))

inner_path :
    (base : List Text) (o j : Text)
    → IsComponent o
    → IsComponent j
    → ensure_within (resolve base) (join_path (join_path (resolve base) o) j)
      ≡ ok (resolve base ++ o ∷ j ∷ [])
inner_path base o j co cj =
    let b = resolve base in
    rw (join_path-component b o co, join_path-component (b ++ o ∷ []) j cj)
      (rw (append_assoc b (o ∷ []) (j ∷ [])) (
        ensure_within-append b (o ∷ j ∷ []) (resolve-IsPlain base)
          (co.not_parent, (cj.not_parent, tt))))

-- `job_root` accepts exactly the pairs of safe components. Its result is then the resolved base
-- with the owner's directory and the job's directory in it: the containment check never fails on
-- components that were accepted, so neither id leads out of the base.
pub job_root_lem :
    (upper : Text → Text) (base : List Text) (owner_id job_id : Text)
    → job_root upper base owner_id job_id ≡ (
        safe_component upper owner_id >>= λ owner.
        safe_component upper job_id >>= λ job. ok (resolve base ++ owner ∷ job ∷ []))
unfolding job_root
job_root_lem upper base owner_id job_id = elim (Result-cases (safe_component upper owner_id)) [
  | inr (e, bad) ↦ rw bad
  | inl (owner, good) ↦ elim (Result-cases (safe_component upper job_id)) [
    | inr (e, bad) ↦ rw (good, bad)
    | inl (job, fine) ↦
        let (_, o) = safe_component-IsComponent upper owner_id owner good in
        let (_, j) = safe_component-IsComponent upper job_id job fine in
        rw (good, fine) (inner_path base owner job o j)
  ]
]

relative_cancel :
    (root xs ys : List Text) → is_relative_to (root ++ xs) (root ++ ys) ≡ is_relative_to xs ys
relative_cancel [] xs ys = refl
relative_cancel (p ∷ root) xs ys = rw ((eq_text_iff p p).1 refl) (relative_cancel root xs ys)

job_root-eq-ok :
    (upper : Text → Text) (base : List Text) (o j : Text) (p : List Text)
    → job_root upper base o j ≡ ok p
    → p ≡ resolve base ++ o ∷ j ∷ []
job_root-eq-ok upper base o j p e =
    let (o', safe_o, e1) =
      >>=-eq-ok (safe_component upper o) _ (sym (job_root_lem upper base o j) ∙ e) in
    let (j', safe_j, e2) = >>=-eq-ok (safe_component upper j) _ e1 in
    cc (
      (safe_component-IsComponent upper o o' safe_o).0,
      (safe_component-IsComponent upper j j' safe_j).0,
    )

-- Two jobs that are both accepted under one base have separate directories: if one root lies in
-- the other, or equals it, then the owners are the same and the jobs are the same.
pub job_root_isolated :
    (upper : Text → Text) (base : List Text) (owner job owner' job' : Text) (p p' : List Text)
    → job_root upper base owner job ≡ ok p
    → job_root upper base owner' job' ≡ ok p'
    → is_relative_to p' p ≡ true
    → (owner' ≡ owner) × (job' ≡ job)
job_root_isolated upper base o j o' j' p p' e e' inside =
    let same = job_root-eq-ok upper base o j p e in
    let same' = job_root-eq-ok upper base o' j' p' e' in
    let cancel = relative_cancel (resolve base) (o' ∷ j' ∷ []) (o ∷ j ∷ []) in
    ground (arith, cancel, eq_text_iff o' o, eq_text_iff j' j)
