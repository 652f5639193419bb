-- ===== src/Kernel/Prepare/Tests.antt =====
-- `prepare` with a separation that fails, and a crash of its fallback.
use open_video_trans.Common.{ℕ, ◌≡◌, refl, true, false, none, some, [], ◌∷◌, ok, err}
use open_video_trans.Kernel.Prepare.{full_mix, vocals, Tracks, Tools, prepare}

abbrev tools : Tools
tools = record {
  have_demucs = true;
  demucs = ok tt;
  to_canonical_wav = ok tt;
  extract_audio = ok tt;
  copy = ok tt;
}

abbrev fresh : Tracks ℕ
fresh = record { speech = none; ambient = none }

abbrev separated : Tracks ℕ
separated = record { speech = some (vocals 7); ambient = some 7 }

separates : (prepare tools 7 true false fresh).1 ≡ ok separated
unfolding prepare
separates = refl

falls_back :
    (prepare (record (tools) { extract_audio = err "no vocals" }) 7 true false fresh).1
    ≡ ok (record { speech = some (full_mix 7); ambient = none })
unfolding prepare
falls_back = refl

-- A forced run without separation passes through a state in which speech.wav is the whole sound and
-- ambient.wav is still there; after a crash in it the next run takes the tracks as they are.
abbrev crashed : Tracks ℕ
crashed = record { speech = some (full_mix 7); ambient = some 7 }

stale_ambient_hit :
    ((prepare tools 7 false true separated).0
      ≡ record { speech = some (full_mix 7); ambient = none } ∷ crashed ∷ [])
    × ((prepare tools 7 false false crashed).1 ≡ ok crashed)
unfolding prepare
stale_ambient_hit = (refl, refl)
