-- ===== src/Text/Trim.antt =====
-- `trim_newline` of src/common/utils.c: the loop from the end of the string.
use ai_chatbot.Base.{
  ℕ, zero, suc, ◌≤◌, ◌<◌, ◌≡◌, refl, Bool, true, false, ◌||◌, [], ◌∷◌, ◌++◌, arith, ◌==◌,
  if◌then◌else◌, Bool-cases, inl, inr, none, some, get_elem?, take, length, length-append,
  take-append_left, take_all, ==_iff,
}
use mathlib.Core.List.{append-nil}
use ai_chatbot.Text.{Bytes}
use ai_chatbot.Text.Split.{Lacks, Lacks-append}

abbrev pub is_eol : ℕ → Bool
is_eol c = (c == b'\n') || (c == b'\r')

abbrev pub is_eol_at : Bytes → ℕ → Bool
is_eol_at s i = elim (get_elem? s i) [ none ↦ false | some c ↦ is_eol c ]

-- `while (len > 0 && is_eol(s[len - 1])) len--`: the length that is left.
unfoldable pub trim_loop : Bytes → ℕ → ℕ
trim_loop s zero = zero
trim_loop s (suc k) = if is_eol_at s k then trim_loop s k else suc k

unfoldable pub trim_newline : Bytes → Bytes
unfolding trim_loop
trim_newline s = take (trim_loop s (length s)) s

-- What the loop has found when it ends at `n`, started at `k`.
pub record Trimmed (s : Bytes) (k n : ℕ) : Type 0 where
  pub bounded : n ≤ k
  pub cut_is_eol : (i : ℕ) → n ≤ i → i < k → is_eol_at s i ≡ true
  pub end_is_not : (m : ℕ) → n ≡ suc m → is_eol_at s m ≡ false

trim_loop-Trimmed : (s : Bytes) (k : ℕ) → Trimmed s k (trim_loop s k)
unfolding trim_loop
trim_loop-Trimmed s zero = record {
  bounded = omega arith;
  cut_is_eol = λ i p q. absurd (omega arith);
  end_is_not = λ m e. absurd (omega arith);
}
trim_loop-Trimmed s (suc k) = elim (Bool-cases (is_eol_at s k)) [
  | inl eol ↦ rw eol (
      let t = trim_loop-Trimmed s k in
      record {
        bounded = omega (arith, t.bounded);
        cut_is_eol = λ i p q. elim (Bool-cases (i == k)) [
          | inl same ↦ rw ((==_iff i k).0 same) eol
          | inr other ↦ t.cut_is_eol i p (ground arith)
        ];
        end_is_not = t.end_is_not;
      })
  | inr stop ↦ rw stop (record {
    bounded = omega arith;
    cut_is_eol = λ i p q. absurd (omega arith);
    end_is_not = λ m e. let same : m ≡ k = omega arith in rw same stop;
  })
]

-- The loop ends; what it leaves is a prefix that does not end in a CR or LF, and all that it cuts
-- off is CRs and LFs.
pub trim_newline_lem : (s : Bytes) → (n : ℕ) × (trim_newline s ≡ take n s) × Trimmed s (length s) n
unfolding trim_newline
trim_newline_lem s = (trim_loop s (length s), refl, trim_loop-Trimmed s (length s))

-- Neither CR nor LF stands in the text.
pub record IsLine (s : Bytes) : Type 0 where
  pub no_lf : Lacks b'\n' s
  pub no_cr : Lacks b'\r' s

is_eol_at-IsLine : (s t : Bytes) (i : ℕ) → IsLine s → i < length s → is_eol_at (s ++ t) i ≡ false
is_eol_at-IsLine [] t i l h = absurd (omega arith)
is_eol_at-IsLine (x ∷ s) t zero l h = ground (arith, l.no_lf.0, l.no_cr.0)
is_eol_at-IsLine (x ∷ s) t (suc i) l h =
    is_eol_at-IsLine s t i (record { no_lf = l.no_lf.1; no_cr = l.no_cr.1 }) (omega arith)

trim_loop-IsLine : (s t : Bytes) (k : ℕ) → IsLine s → k ≤ length s → trim_loop (s ++ t) k ≡ k
unfolding trim_loop
trim_loop-IsLine s t zero l h = refl
trim_loop-IsLine s t (suc k) l h = rw (is_eol_at-IsLine s t k l h)

get_elem?-append_end : (s : Bytes) (c : ℕ) → get_elem? (s ++ c ∷ []) (length s) ≡ some c
get_elem?-append_end [] c = refl
get_elem?-append_end (x ∷ s) c = get_elem?-append_end s c

trim_loop-newline : (s : Bytes) → IsLine s → trim_loop (s ++ b'\n' ∷ []) (suc (length s)) ≡ length s
unfolding trim_loop
trim_loop-newline s l =
    let eol : is_eol_at (s ++ b'\n' ∷ []) (length s) ≡ true =
      rw (get_elem?-append_end s b'\n', is_eol_at) in
    rw (eol) (trim_loop-IsLine s (b'\n' ∷ []) (length s) l (omega arith))

-- A line that `snprintf("...\n")` built comes back without its newline.
pub trim_newline-line : (s : Bytes) → IsLine s → trim_newline (s ++ b'\n' ∷ []) ≡ s
unfolding trim_newline
trim_newline-line s l =
    let n : length (s ++ b'\n' ∷ []) ≡ suc (length s) =
      omega (arith, length-append s (b'\n' ∷ [])) in
    rw (n) (rw (trim_loop-newline s l) (take-append_left (length s) s (b'\n' ∷ []) refl))

pub trim_newline-id : (s : Bytes) → IsLine s → trim_newline s ≡ s
unfolding trim_newline
trim_newline-id s l =
    let h : trim_loop s (length s) ≡ length s =
      rw append-nil at (trim_loop-IsLine s [] (length s) l (omega arith)) in
    rw h (take_all (length s) s (omega arith))

pub IsLine-append : (s t : Bytes) → IsLine s → IsLine t → IsLine (s ++ t)
IsLine-append s t l k = record {
  no_lf = Lacks-append b'\n' s t l.no_lf k.no_lf;
  no_cr = Lacks-append b'\r' s t l.no_cr k.no_cr;
}

-- A blank joins two lines to one.
pub IsLine-blank : (s t : Bytes) → IsLine s → IsLine t → IsLine (s ++ b' ' ∷ t)
IsLine-blank s t l k =
    IsLine-append s (b' ' ∷ t) l
      (record { no_lf = (omega arith, k.no_lf); no_cr = (omega arith, k.no_cr) })
