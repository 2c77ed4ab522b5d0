-- ===== src/Gc/Order.antt =====
-- The order of texts that the sorts of scripts/lib/snapshot.mjs and scripts/lib/clean-plan.mjs follow.
use claude_housekeeper.Base.{[], ℕ, ◌≡◌, ◌<◌, true, false, ◌∷◌, arith, Bool-cases, ltb, inl, inr}
use claude_housekeeper.Contracts.{Text}
use claude_housekeeper.Gc.{text_lt}

-- A text is not after another: it is a prefix of it, or has the smaller code where they first differ.
pub data IsUpTo : Text → Text → Type 0 where
  ends : (t : Text) → IsUpTo [] t
  below : (a b : ℕ) (s t : Text) → a < b → IsUpTo (a ∷ s) (b ∷ t)
  same : (a : ℕ) (s t : Text) → IsUpTo s t → IsUpTo (a ∷ s) (a ∷ t)

pub IsUpTo-of_text_lt : (s t : Text) → text_lt t s ≡ false → IsUpTo s t
IsUpTo-of_text_lt [] t h = ends t
IsUpTo-of_text_lt (a ∷ s) [] h = absurd (ground (arith, h))
IsUpTo-of_text_lt (a ∷ s) (b ∷ t) h = elim (Bool-cases (ltb a b)) [
  | inl l ↦ below a b s t (ground (arith, l))
  | inr l ↦
      let e : a ≡ b = ground (arith, h, l) in
      let k : text_lt t s ≡ false = ground (arith, h, l) in
      rw e (same b s t (IsUpTo-of_text_lt s t k))
]

pub IsUpTo-trans : {s t u : Text} → IsUpTo s t → IsUpTo t u → IsUpTo s u
IsUpTo-trans {u} (ends t) k = ends u
IsUpTo-trans (below a b s t l) (below b' c t' u m) = below a c s u (omega (arith, l, m))
IsUpTo-trans (below a b s t l) (same b' t' u k) = below a b s u l
IsUpTo-trans (same a s t h) (below a' c t' u m) = below a c s u m
IsUpTo-trans (same a s t h) (same a' t' u k) = same a s u (IsUpTo-trans h k)

pub IsUpTo-of_lt : (s t : Text) → text_lt s t ≡ true → IsUpTo s t
IsUpTo-of_lt [] t h = ends t
IsUpTo-of_lt (a ∷ s) [] h = absurd (ground (arith, h))
IsUpTo-of_lt (a ∷ s) (b ∷ t) h = elim (Bool-cases (ltb a b)) [
  | inl l ↦ below a b s t (ground (arith, l))
  | inr l ↦
      let e : a ≡ b = ground (arith, h, l) in
      let k : text_lt s t ≡ true = ground (arith, h, l) in rw e (same b s t (IsUpTo-of_lt s t k))
]
