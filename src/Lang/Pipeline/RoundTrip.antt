-- ===== src/Lang/Pipeline/RoundTrip.antt =====
-- An action that prayer-lang/src/action_projection.rs shows as text is read back as that action.
use prayer_rs.Prelude.{◌≡◌, true, false}
use prayer_rs.Lang.Projection.Requests.{Statement}
use prayer_rs.Lang.Scanner.{show_line}
use prayer_rs.Lang.Scanned.{all_words}
use prayer_rs.Lang.Removed.{removed_syntax}

-- `arg` writes each word as one token, and nothing in the text is removed syntax.
abbrev pub IsShown : Statement → Type 0
IsShown (Statement.line name words) =
    (all_words words ≡ true) × (removed_syntax (show_line name words) ≡ false)
IsShown (Statement.block rows words) = ⊥
