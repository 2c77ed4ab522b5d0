-- ===== src/Jsonc.antt =====
-- scripts/lib/audit.mjs: `hasJsonComments`, the scanner that tells JSON with comments from broken JSON.
pub mod Comments
use claude_housekeeper.Base.{
  ℕ, Bool, true, false, ◌&&◌, ◌||◌, ◌==◌, List, [], ◌∷◌, if◌then◌else◌, ltb, length,
}
use claude_housekeeper.Contracts.{Text}

abbrev pub quote : ℕ
quote = b'"'

abbrev pub backslash : ℕ
backslash = b'\\'

abbrev pub slash : ℕ
slash = b'/'

-- `text[i + 1] === "/" || text[i + 1] === "*"`
abbrev pub opens_comment : Text → Bool
opens_comment [] = false
opens_comment (c ∷ s) = c == slash || c == b'*'

-- The locals `inString` and `escape` of the loop.
pub data ScanState : Type 0 where
  outside in_string escaped : ScanState

-- The loop of `hasJsonComments`; `escape` is set only inside a string.
unfoldable pub scan : ScanState → Text → Bool
scan m [] = false
scan escaped (c ∷ s) = scan in_string s
scan in_string (c ∷ s) =
    scan (if c == backslash then escaped else if c == quote then outside else in_string) s
scan outside (c ∷ s) =
    let rest = scan (if c == quote then in_string else outside) s in
    if c == slash && opens_comment s then true else rest

-- `hasJsonComments`
unfoldable pub has_json_comments : Text → Bool
unfolding scan
has_json_comments text = if ltb (length text) 2 then false else scan outside text
