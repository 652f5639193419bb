-- ===== src/Kernel/Isolation/Pin.antt =====
-- The pinned resolver of isolation.py around the selector of provider-adapters.
use open_video_trans.Common.{
  String, ◌≡◌, inl, Bool, true, false, Option, some, Result, ok, err, arith, refl,
}
use open_video_trans.Providers.Ladder.{is_paid_provider}
use open_video_trans.Providers.Select.{Provider, Registry, select}
use open_video_trans.Providers.Select.RedLine.{IsFree, select_never_paid}
use open_video_trans.Kernel.Isolation.{pass_on, pinned_select}

pass_on-eq-ok : (r : Result _ Provider) (p : Provider) → pass_on r ≡ ok p → r ≡ ok p
pass_on-eq-ok (ok q) p e = ground arith
pass_on-eq-ok (err x) p e = cc

-- RED LINE. Whatever a stage of the kernel asks for, with whatever `allow_paid` and whatever is
-- registered, the provider that the pinned selector returns is free, and a name that was asked for
-- is not on the paid list.
pub pinned_select_never_paid :
    (registry : Registry) (kind : String) (requested : Option String) (allow_paid : Bool)
    (p : Provider)
    → pinned_select (select registry) kind requested allow_paid ≡ ok p
    → IsFree p × ((name : String) → requested ≡ some name → is_paid_provider name ≡ false)
unfolding pinned_select
pinned_select_never_paid registry kind requested true p e = cc
pinned_select_never_paid registry kind requested false p e =
    select_never_paid registry kind requested false p (pass_on-eq-ok _ p e) (inl refl)
