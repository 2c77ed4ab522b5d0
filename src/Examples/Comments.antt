-- ===== src/Examples/Comments.antt =====
-- Settings texts with and without comments.
use claude_housekeeper.Base.{[], ◌≡◌, ◌↔◌, refl, true, false, ◌∷◌}
use claude_housekeeper.Contracts.{Text}
use claude_housekeeper.Posix.{codes}
use claude_housekeeper.Jsonc.{has_json_comments}
use claude_housekeeper.Jsonc.Comments.{HasComment, has_json_comments_iff}

-- A URL in a string, after an escaped quote.
abbrev url : Text
url = codes "{\"a\\\"\": \"http://x\"}"

abbrev commented : Text
commented = codes "{\"a\": 1} // why"

has_json_comments_tests :
    (has_json_comments url ≡ false)
    × (has_json_comments commented ≡ true)
    × (has_json_comments (b'/' ∷ []) ≡ false)
unfolding has_json_comments
has_json_comments_tests = (refl, refl, refl)

has_json_comments_iff_example : (has_json_comments commented ≡ true) ↔ HasComment commented
has_json_comments_iff_example = has_json_comments_iff commented
