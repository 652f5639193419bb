-- ===== src/Kernel/Isolation/Components.antt =====
-- What `safe_component` of isolation.py guarantees of the component that it accepts.
use mathlib.Core.List.{append-nil, append_assoc}
use open_video_trans.Common.{◌≡◌, refl, false, List, [], ◌∷◌, ◌++◌, ok, arith}
use open_video_trans.Common.Chars.{Text, codes, eq_text, has}
use open_video_trans.Kernel.Isolation.{
  safe_component, keep_part, split_parts, is_absolute, join_path,
}

-- A text that pathlib takes for one component.
pub record IsComponent (v : Text) : Type 0 where
  pub not_empty : eq_text v [] ≡ false
  pub not_self : eq_text v (codes ".") ≡ false
  pub not_parent : eq_text v (codes "..") ≡ false
  pub no_slash : has b'/' v ≡ false

pub safe_component-IsComponent :
    (upper : Text → Text) (v w : Text) → safe_component upper v ≡ ok w → (w ≡ v) × IsComponent w
unfolding safe_component
safe_component-IsComponent upper v w e = ground arith

split_parts_one :
    (current v : Text) → has b'/' v ≡ false → split_parts current v ≡ keep_part (current ++ v) []
split_parts_one current [] h = rw append-nil
split_parts_one current (c ∷ v) h =
    ground (arith, split_parts_one (current ++ c ∷ []) v, append_assoc current (c ∷ []) v)

not_absolute : (v : Text) → has b'/' v ≡ false → is_absolute v ≡ false
not_absolute [] h = refl
not_absolute (c ∷ v) h = ground arith

pub join_path-component :
    (path : List Text) (v : Text) → IsComponent v → join_path path v ≡ path ++ v ∷ []
unfolding join_path
join_path-component path v c = ground (arith, split_parts_one [] v, not_absolute v)
