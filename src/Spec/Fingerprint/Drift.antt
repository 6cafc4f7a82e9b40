-- ===== src/Spec/Fingerprint/Drift.antt =====
-- What the fingerprint of puna-orchestrator/src/spec/room.rs covers, and what it leaves free: whoever
-- compares two of them sees every change of the command line, and no change of a slot's password.
use Prim.Native.String.{◌∷◌ as push, ◌++◌ as append}
use puna.Common.{◌≡◌, ap, String, List, [], ◌∷◌, ◌++◌, map}
use puna.Model.SlotAuth.{SlotAuth}
use puna.Spec.Fingerprint.{Draft, Text, canonical, build, env_line, slot_numbers, join_commas}

module _ (text : Text) where
  env-rotated :
      (before after : List (String × String)) (v w : String)
      → slot_numbers text v ≡ slot_numbers text w
      → map (env_line text) (before ++ ("PAHOA_SLOT_PASSWORDS", v) ∷ after)
        ≡ map (env_line text) (before ++ ("PAHOA_SLOT_PASSWORDS", w) ∷ after)
  unfolding env_line
  env-rotated [] after v w h =
      ap
        (λ ns.
          append "env="
            (append "PAHOA_SLOT_PASSWORDS" (push "=" (append "slots:" (join_commas ns))))
          ∷ map (env_line text) after)
        h
  env-rotated (e ∷ before) after v w h =
      ap (λ rest. env_line text e ∷ rest) (env-rotated before after v w h)

  -- New passwords for the same slots leave what is asked of the cluster as it was, its hash included,
  -- wherever the passwords stand in the environment.
  pub build-rotated :
      (d : Draft) (auth : SlotAuth) (before after : List (String × String)) (v w : String)
      → slot_numbers text v ≡ slot_numbers text w
      → build text d auth (before ++ ("PAHOA_SLOT_PASSWORDS", v) ∷ after)
        ≡ build text d auth (before ++ ("PAHOA_SLOT_PASSWORDS", w) ∷ after)
  unfolding build canonical
  build-rotated d auth before after v w h = rw (env-rotated before after v w h)
