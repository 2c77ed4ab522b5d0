-- ===== src/SecretNames.antt =====
-- The file names that scripts/lib/surface.mjs takes for secrets: `SECRET_FILENAMES` and
-- `SECRET_NAME_PATTERNS`. The case-insensitive patterns run on the lower-case text.
use claude_housekeeper.Base.{
  [], ℕ, ◌+◌, Bool, true, false, ◌&&◌, ◌||◌, ◌==◌, leb, List, ◌∷◌, any, length, drop, if◌then◌else◌,
}
use claude_housekeeper.Contracts.{Text}
use claude_housekeeper.Posix.{codes, starts_with, ends_with}

abbrev pub lower : ℕ → ℕ
lower c = if leb b'A' c && leb c b'Z' then c + 32 else c

abbrev pub is_name_sep : ℕ → Bool
is_name_sep c = c == b'.' || c == b'_' || c == b'-'

-- `([._-]|$)` here
abbrev pub at_word_end : Text → Bool
at_word_end [] = true
at_word_end (c ∷ s) = is_name_sep c

-- One of the words begins here and ends before a separator or the end.
abbrev pub begins_word : List Text → Text → Bool
begins_word words s = any (λ w. starts_with s w && at_word_end (drop (length w) s)) words

-- The same, behind any separator.
abbrev pub word_after_sep : List Text → Text → Bool
word_after_sep words [] = false
word_after_sep words (c ∷ s) = is_name_sep c && begins_word words s || word_after_sep words s

-- `/(^|[._-])(words)([._-]|$)/i`
abbrev pub has_word : List Text → Text → Bool
has_word words s = begins_word words s || word_after_sep words s

-- `/words/i`, anywhere in the text
abbrev pub contains_any : List Text → Text → Bool
contains_any words [] = any (λ w. starts_with [] w) words
contains_any words (c ∷ s) = any (λ w. starts_with (c ∷ s) w) words || contains_any words s

-- `/\.env(\.|$)/i`
abbrev pub at_env_end : Text → Bool
at_env_end [] = true
at_env_end (c ∷ s) = c == b'.'

abbrev pub has_env : Text → Bool
has_env [] = false
has_env (c ∷ s) = starts_with (c ∷ s) (codes ".env") && at_env_end (drop 4 (c ∷ s)) || has_env s

abbrev pub secret_filenames : List Text
secret_filenames =
    codes ".env"
    ∷ codes ".env.local"
    ∷ codes ".env.production"
    ∷ codes ".netrc"
    ∷ codes "credentials"
    ∷ codes "credentials.json"
    ∷ []

abbrev pub key_words : List Text
key_words = codes "id_rsa" ∷ codes "id_ed25519" ∷ codes "id_ecdsa" ∷ codes "id_dsa" ∷ []

abbrev pub secret_words : List Text
secret_words =
    codes "secret"
    ∷ codes "secrets"
    ∷ codes "credentials"
    ∷ codes "apikey"
    ∷ codes "api_key"
    ∷ codes "api-key"
    ∷ []

-- `SECRET_NAME_PATTERNS`, on the lower-case file name
unfoldable pub matches_secret_pattern : Text → Bool
matches_secret_pattern s =
    has_env s
    || has_word key_words s
    || has_word secret_words s
    || ends_with s (codes ".pem")
    || ends_with s (codes ".key")
