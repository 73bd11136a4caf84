-- ===== src/Ai/Schema.antt =====
-- Confidence scores, and the fences around a reply.
use gotra.Prelude.{
  ℕ, ℤ, pos, negsuc, ◌≤◌, ◌≡◌, refl, Str, false, some, [], ◌∷◌, ◌++◌, ◌==◌, codes, has_prefix,
  trim_prefix-append, trim_prefix-other, trim_space, trim_left, trim_right, cons_trimmed, is_space,
  arith,
}
use gotra.Ai.{
  Completeness, clamp_confidence, apply_confidence, json_text, before_last, or_whole, fence,
}

clamp_confidence_bound : (n : ℤ) → clamp_confidence n ≤ 100
unfolding clamp_confidence
clamp_confidence_bound (negsuc n) = omega arith
clamp_confidence_bound (pos n) = ground arith

-- Whatever the model reports and whatever the float64 product gives, the confidence is at most 100.
pub apply_confidence_bound :
    (scaled : ℕ → Completeness → ℤ) (n : ℤ) (c : Completeness) → apply_confidence scaled n c ≤ 100
unfolding apply_confidence
apply_confidence_bound scaled n c = clamp_confidence_bound (scaled (clamp_confidence n) c)

before_last-append : (s : Str) → before_last fence (s ++ fence) ≡ some s
unfolding before_last has_prefix
before_last-append [] = refl
before_last-append (c ∷ s) = rw (before_last-append s) refl

trim_right-fence : (s : Str) → trim_right (s ++ fence) ≡ s ++ fence
unfolding trim_right cons_trimmed is_space
trim_right-fence [] = refl
trim_right-fence (c ∷ []) = refl
trim_right-fence (c ∷ d ∷ s) = rw (trim_right-fence (d ∷ s)) refl

-- The reply with its fences.
abbrev fenced : Str → Str
fenced s = fence ++ codes "json" ++ (s ++ fence)

trim_space-fenced : (s : Str) → trim_space (fenced s) ≡ fenced s
unfolding trim_space trim_left is_space
trim_space-fenced s = trim_right-fence (fence ++ codes "json" ++ s)

has_prefix-other : (c : ℕ) (s : Str) → (c == b'`') ≡ false → has_prefix (c ∷ s) fence ≡ false
unfolding has_prefix
has_prefix-other c s h = rw h refl

-- A reply between the fences "```json" and "```" is decoded as what stands between them, where
-- that is not empty and does not itself start with a backquote.
pub json_text-fenced :
    (c : ℕ) (s : Str)
    → (c == b'`') ≡ false
    → json_text (fence ++ codes "json" ++ (c ∷ s ++ fence)) ≡ trim_space (c ∷ s)
unfolding json_text or_whole has_prefix
json_text-fenced c s h =
    rw
      (
        json_text,
        trim_space-fenced (c ∷ s),
        trim_prefix-append (fence ++ codes "json") (c ∷ s ++ fence),
        trim_prefix-other (c ∷ s ++ fence) fence (has_prefix-other c (s ++ fence) h),
        before_last-append (c ∷ s),
      )
      refl
