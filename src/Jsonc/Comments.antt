-- ===== src/Jsonc/Comments.antt =====
-- `hasJsonComments` of scripts/lib/audit.mjs against a grammar of texts with string literals.
use claude_housekeeper.Base.{
  ℕ, ◌≡◌, ◌↔◌, refl, ap, inl, inr, true, false, ◌==◌, [], ◌∷◌, ◌++◌, arith, Bool-cases, ltb, length,
  length-append, sym, ◌∙◌,
}
use mathlib.Core.List.{append_assoc}
use claude_housekeeper.Contracts.{Text}
use claude_housekeeper.Jsonc.{
  quote, backslash, slash, opens_comment, ScanState, outside, in_string, escaped, scan,
  has_json_comments,
}

-- The end of a string literal: characters and escaped characters, up to a quote.
pub data IsLiteralTail : Text → Type 0 where
  close : (c : ℕ) → c ≡ quote → IsLiteralTail (c ∷ [])
  plain :
      (c : ℕ) (s : Text)
      → (c == quote) ≡ false
      → (c == backslash) ≡ false
      → IsLiteralTail s
      → IsLiteralTail (c ∷ s)
  escape : (b c : ℕ) (s : Text) → b ≡ backslash → IsLiteralTail s → IsLiteralTail (b ∷ c ∷ s)

-- A text that ends outside of every string literal.
pub data IsBalanced : Text → Type 0 where
  empty : IsBalanced []
  other : (c : ℕ) (s : Text) → (c == quote) ≡ false → IsBalanced s → IsBalanced (c ∷ s)
  literal :
      (q : ℕ) (s t : Text) → q ≡ quote → IsLiteralTail s → IsBalanced t → IsBalanced (q ∷ s ++ t)

-- A slash outside of every string literal that a slash or an asterisk follows.
pub record HasComment (text : Text) : Type 0 where
  pub before : Text
  pub after : Text
  pub balanced : IsBalanced before
  pub place : text ≡ before ++ slash ∷ after
  pub opened : opens_comment after ≡ true

scan-plain :
    (c : ℕ) (s : Text)
    → (c == quote) ≡ false
    → (c == backslash) ≡ false
    → scan in_string (c ∷ s) ≡ scan in_string s
unfolding scan
scan-plain c s q b = ground arith

scan-literal : (s t : Text) → IsLiteralTail s → scan in_string (s ++ t) ≡ scan outside t
unfolding scan
scan-literal _ t (IsLiteralTail.close c e) = rw e refl
scan-literal _ t (IsLiteralTail.plain c s q b l) = scan-plain c (s ++ t) q b ∙ scan-literal s t l
scan-literal _ t (IsLiteralTail.escape b c s e l) = rw e (scan-literal s t l)

opened-scan : (after : Text) → opens_comment after ≡ true → scan outside (slash ∷ after) ≡ true
unfolding scan
opened-scan after o = rw o refl

balanced-scan :
    (before after : Text)
    → IsBalanced before
    → opens_comment after ≡ true
    → scan outside (before ++ slash ∷ after) ≡ true
unfolding scan
balanced-scan _ after IsBalanced.empty o = opened-scan after o
balanced-scan _ after (IsBalanced.other c s q b) o =
    let ih = balanced-scan s after b o in ground (arith, ih)
balanced-scan _ after (IsBalanced.literal q s t e l b) o = rw e (
    rw (append_assoc s t (slash ∷ after))
      (scan-literal s (t ++ slash ∷ after) l ∙ balanced-scan t after b o))

-- A text that begins with the end of a string literal, and has a comment after it.
record HasTail (text : Text) : Type 0 where
  tail : Text
  rest : Text
  literal : IsLiteralTail tail
  place : text ≡ tail ++ rest
  comment : HasComment rest

-- What `scan` finds from a mode.
abbrev Finds : ScanState → Text → Type 0
Finds outside text = HasComment text
Finds in_string text = HasTail text
Finds escaped text = (c : ℕ) × (s : Text) × (text ≡ c ∷ s) × HasTail s

here : (c : ℕ) (s : Text) → (c == slash) ≡ true → opens_comment s ≡ true → HasComment (c ∷ s)
here c s e o = record {
  before = [];
  after = s;
  balanced = IsBalanced.empty;
  place = ap (λ x. x ∷ s) (ground arith);
  opened = o;
}

after_other : (c : ℕ) (s : Text) → (c == quote) ≡ false → HasComment s → HasComment (c ∷ s)
after_other c s q h = record {
  before = c ∷ h.before;
  after = h.after;
  balanced = IsBalanced.other c h.before q h.balanced;
  place = ap (λ x. c ∷ x) h.place;
  opened = h.opened;
}

after_literal : (c : ℕ) (s : Text) → (c == quote) ≡ true → HasTail s → HasComment (c ∷ s)
after_literal c s q h = record {
  before = c ∷ h.tail ++ h.comment.before;
  after = h.comment.after;
  balanced =
      IsBalanced.literal c h.tail h.comment.before (ground arith) h.literal h.comment.balanced;
  place =
      ap (λ x. c ∷ x)
        (h.place
          ∙ ap (λ x. h.tail ++ x) h.comment.place
          ∙ sym (append_assoc h.tail h.comment.before (slash ∷ h.comment.after)));
  opened = h.comment.opened;
}

closed : (c : ℕ) (s : Text) → (c == quote) ≡ true → HasComment s → HasTail (c ∷ s)
closed c s q h = record {
  tail = c ∷ [];
  rest = s;
  literal = IsLiteralTail.close c (ground arith);
  place = refl;
  comment = h;
}

scan-Finds : (m : ScanState) (text : Text) → scan m text ≡ true → Finds m text
unfolding scan
scan-Finds outside [] e = ground arith
scan-Finds in_string [] e = ground arith
scan-Finds escaped [] e = ground arith
scan-Finds escaped (c ∷ s) e = (c, s, refl, scan-Finds in_string s e)
scan-Finds in_string (c ∷ s) e = elim (Bool-cases (c == backslash)) [
  | inl b ↦
      let (d, t, q, h) = scan-Finds escaped s (rw b at e) in
      record {
        tail = c ∷ d ∷ h.tail;
        rest = h.rest;
        literal = IsLiteralTail.escape c d h.tail (ground arith) h.literal;
        place = ap (λ x. c ∷ x) (q ∙ ap (λ x. d ∷ x) h.place);
        comment = h.comment;
      }
  | inr b ↦ elim (Bool-cases (c == quote)) [
    | inl q ↦ closed c s q (scan-Finds outside s (rw (b, q) at e))
    | inr q ↦
        let h = scan-Finds in_string s (rw (b, q) at e) in
        record {
          tail = c ∷ h.tail;
          rest = h.rest;
          literal = IsLiteralTail.plain c h.tail q b h.literal;
          place = ap (λ x. c ∷ x) h.place;
          comment = h.comment;
        }
  ]
]
scan-Finds outside (c ∷ s) e = elim (Bool-cases (c == quote)) [
  | inl q ↦ after_literal c s q (scan-Finds in_string s (ground arith))
  | inr q ↦ elim (Bool-cases (c == slash)) [
    | inl b ↦ elim (Bool-cases (opens_comment s)) [
      | inl o ↦ here c s b o
      | inr o ↦ after_other c s q (scan-Finds outside s (rw (b, o, q) at e))
    ]
    | inr b ↦ after_other c s q (scan-Finds outside s (rw (b, q) at e))
  ]
]

opened_length :
    (before after : Text)
    → opens_comment after ≡ true
    → ltb (length (before ++ slash ∷ after)) 2 ≡ false
opened_length before [] o = ground arith
opened_length before (c ∷ s) o = ground (arith, length-append before (slash ∷ c ∷ s))

-- The scanner reports comments exactly in the texts that have a slash, outside of every string literal,
-- with a slash or an asterisk right after it; escaped quotes do not end a literal.
pub has_json_comments_iff : (text : Text) → (has_json_comments text ≡ true) ↔ HasComment text
unfolding has_json_comments
has_json_comments_iff text = (
  λ e. scan-Finds outside text (ground arith),
  λ h. rw h.place (
      rw (opened_length h.before h.after h.opened)
        (balanced-scan h.before h.after h.balanced h.opened)),
)
