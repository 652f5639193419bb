-- ===== src/Worker/Pipeline/Stages.antt =====
-- The stages of pipeline.py, the plan that maps them to providers, and the deliverables.
use open_video_trans.Common.{
  String, Bool, true, false, ◌&&◌, ◌||◌, Option, none, some, List, [], ◌∷◌, ◌++◌, ◌==◌,
  if◌then◌else◌,
}

-- _STAGE_KINDS
pub data StageKind : Type 0 where
  asr mt tts : StageKind

abbrev pub kind_name : StageKind → String
kind_name asr = "asr"
kind_name mt = "mt"
kind_name tts = "tts"

-- `kind in _STAGE_KINDS`, with the stage.
abbrev pub kind_of : String → Option StageKind
kind_of s =
    if s == "asr"
    then some asr
    else if s == "mt"
    then some mt
    else if s == "tts"
    then some tts
    else none

abbrev pub same_kind : StageKind → StageKind → Bool
same_kind asr asr = true
same_kind mt mt = true
same_kind tts tts = true
same_kind _ _ = false

-- `_stage_kinds(output_mode)`
unfoldable pub stage_kinds : String → List StageKind
stage_kinds output_mode =
    if output_mode == "subtitle_only" then asr ∷ mt ∷ [] else asr ∷ mt ∷ tts ∷ []

-- _FREE_POOL_EXHAUSTED
abbrev pub sentinel : String
sentinel = "__free_pool_exhausted__"

-- A dictionary from stages, `d[k] = v`.
abbrev pub update {ℓ} : {V : Type ℓ} → (StageKind → V) → StageKind → V → StageKind → V
update d k v j = if same_kind j k then v else d j

-- `plan.get(k) == provider`
abbrev pub is_planned : Option String → String → Bool
is_planned none provider = false
is_planned (some p) provider = p == provider

-- `_infer_kind(provider, plan, kinds)`, for the kinds after the first.
unfoldable pub infer_kind :
    String → (StageKind → Option String) → StageKind → List StageKind → StageKind
infer_kind provider plan last [] = last
infer_kind provider plan last (k ∷ kinds) =
    let later = infer_kind provider plan k kinds in
    if is_planned (plan k) provider then k else later

-- What `_deliverables` uploads: the artifact field and the produced file.
pub data Deliverable : Type 0 where
  burned_video dubbed_video subtitles : Deliverable

-- `_deliverables(job, paths)`; the last argument is BURN_SUBTITLES_ENABLED.
unfoldable pub deliverables : String → String → Bool → List Deliverable
deliverables output_mode subtitle_delivery burn_enabled =
    let want_subs = output_mode == "subtitle_only" || output_mode == "both" in
    let burn =
      want_subs && (subtitle_delivery == "burned" || subtitle_delivery == "both") && burn_enabled in
    let video =
      if burn
      then burned_video ∷ []
      else if output_mode == "dub_only" || output_mode == "both"
      then dubbed_video ∷ []
      else [] in
    let srt =
      if want_subs && (subtitle_delivery == "srt" || subtitle_delivery == "both")
      then subtitles ∷ []
      else [] in
    video ++ srt
