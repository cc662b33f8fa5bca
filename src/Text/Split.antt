-- ===== src/Text/Split.antt =====
-- Splitting a string at its first separator, against the text that was joined.
use ai_chatbot.Base.{
  ℕ, ◌+◌, ◌<◌, suc, ◌≡◌, refl, ◌≢◌, false, [], ◌∷◌, ◌++◌, none, some, arith, length, length-append,
  ltb, ltb_lt, take, take_all, Option-cases, inl, inr, ==_iff, zero,
}
use ai_chatbot.Text.{Bytes, strchr, strncpy_over}

-- `s` has no byte `c`.
abbrev pub Lacks : ℕ → Bytes → Type 0
Lacks c [] = Unit
Lacks c (x ∷ s) = (x ≢ c) × Lacks c s

pub strchr-append : (c : ℕ) (a b : Bytes) → Lacks c a → strchr c (a ++ c ∷ b) ≡ some (a, b)
unfolding strchr
strchr-append c [] b h = ground arith
strchr-append c (x ∷ a) b h = ground (arith, strchr-append c a b h.1)

pub strchr-Lacks : (c : ℕ) (s : Bytes) → Lacks c s → strchr c s ≡ none
unfolding strchr
strchr-Lacks c [] h = refl
strchr-Lacks c (x ∷ s) h = ground (arith, strchr-Lacks c s h.1)

-- What a split found: the pieces make up the string, and the first has no separator.
pub strchr_sound :
    (c : ℕ) (s : Bytes) {a b : Bytes} → strchr c s ≡ some (a, b) → (s ≡ a ++ c ∷ b) × Lacks c a
unfolding strchr
strchr_sound c [] e = cc
strchr_sound c (x ∷ s) e = elim (Option-cases (strchr c s)) [
  | inl missing ↦ ground (arith, ==_iff x c)
  | inr ((p, q), found) ↦ ground (arith, strchr_sound c s found)
]

pub strchr-length :
    (c : ℕ) (s : Bytes) {a b : Bytes}
    → strchr c s ≡ some (a, b)
    → length s ≡ suc (length a + length b)
strchr-length c s {a} {b} e = rw ((strchr_sound c s e).0) (omega (arith, length-append a (c ∷ b)))

pub Lacks-take : (c n : ℕ) (s : Bytes) → Lacks c s → Lacks c (take n s)
Lacks-take c zero s h = tt
Lacks-take c (suc n) [] h = tt
Lacks-take c (suc n) (x ∷ s) h = (h.0, Lacks-take c n s h.1)

pub Lacks-append : (c : ℕ) (s t : Bytes) → Lacks c s → Lacks c t → Lacks c (s ++ t)
Lacks-append c [] t h k = k
Lacks-append c (x ∷ s) t h k = (h.0, Lacks-append c s t h.1 k)

-- A source that is shorter than the count is copied whole, with its NUL.
pub strncpy_over-short : (n : ℕ) (spill s : Bytes) → length s < n → strncpy_over n spill s ≡ s
unfolding strncpy_over
strncpy_over-short n spill s h = rw (ltb_lt (length s) n h)

-- A source of exactly `n` bytes runs on into the memory behind.
pub strncpy_over-full :
    (n : ℕ) (spill s : Bytes) → length s ≡ n → strncpy_over n spill s ≡ s ++ spill
unfolding strncpy_over
strncpy_over-full n spill s h =
    let full : ltb (length s) n ≡ false = ground arith in rw (full, take_all n s (omega arith))
