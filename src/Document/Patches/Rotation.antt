-- ===== src/Document/Patches/Rotation.antt =====
-- A credential that was refreshed twice from one token is written once.
use orchids_2api.Prelude.{String, ◌≡◌, ap, false, none, some, arith, str_eq}
use orchids_2api.Prelude.Text.{is_empty, trim_space}
use orchids_2api.Prelude.Text.Trim.{trim_space_idem}
use orchids_2api.Prelude.Time.{Time}
use orchids_2api.Document.{patch_string}
use orchids_2api.Document.Patches.{Targets, changed_concurrently, apply_credential_patch}

-- An accepted refresh token that is not blank is the stored one afterwards, trimmed.
patched-refresh :
    (expected access refresh : String) (expires : Time) (targets patched : Targets)
    → is_empty (trim_space refresh) ≡ false
    → apply_credential_patch expected access refresh expires targets ≡ some patched
    → patched.1 ≡ trim_space refresh
unfolding apply_credential_patch patch_string
patched-refresh expected access refresh expires targets patched given written =
    ground (arith, given, written, trim_space_idem refresh, ap is_empty (trim_space_idem refresh))

-- Of two refreshes of one token to two other tokens, none of them blank, the one that is written
-- second is refused: it cannot take back the rotation of the first.
pub rotation-once :
    (expected first_access first second_access second : String) (expires later : Time)
    (targets rotated : Targets)
    → is_empty (trim_space expected) ≡ false
    → is_empty (trim_space first) ≡ false
    → str_eq (trim_space first) (trim_space expected) ≡ false
    → str_eq (trim_space first) (trim_space second) ≡ false
    → apply_credential_patch expected first_access first expires targets ≡ some rotated
    → apply_credential_patch expected second_access second later rotated ≡ none
unfolding apply_credential_patch patch_string changed_concurrently
rotation-once expected first_access first second_access second expires later targets rotated named
      given moved apart written =
    let stored : rotated.1 ≡ trim_space first =
      patched-refresh expected first_access first expires targets rotated given written in
    ground (
      arith,
      named,
      moved,
      apart,
      ap (λ t. str_eq t (trim_space expected)) stored,
      ap (λ t. str_eq t (trim_space second)) stored,
    )
