-- ===== src/Port/Grammar.antt =====
-- The texts that `parse_port` of src/common/utils.c takes for a port.
use ai_chatbot.Base.{
  ℕ, ◌^◌, ◌+◌, ◌-◌, ◌*◌, ◌%◌, ◌≤◌, ◌≡◌, ◌≢◌, ◌↔◌, ◌⊎◌, inl, inr, refl, sym, ap, ◌∙◌, Bool, true,
  false, [], ◌∷◌, ◌++◌, none, some, arith, Option-cases, Bool-cases, some_inj, ==_iff, not, ◌||◌,
  ltb, ◌==◌, if◌then◌else◌,
}
use ai_chatbot.Text.{Bytes, is_empty, is_space, skip_space}
use ai_chatbot.Port.{
  isdigit, read_signed, read_digits, read_number, strtol, parse_port, out_of_range,
}

abbrev pub All : (ℕ → Bool) → Bytes → Type 0
All p [] = Unit {0}
All p (c ∷ s) = (p c ≡ true) × All p s

-- The number that digits stand for, behind those of `acc`.
abbrev pub value_from : ℕ → Bytes → ℕ
value_from acc [] = acc
value_from acc (c ∷ s) = value_from (acc * 10 + (c - b'0')) s

-- White space, perhaps a plus sign, digits, and nothing else, with the number that they stand for.
pub record IsNumeral (s : Bytes) (v : ℕ) : Type 0 where
  pub space : Bytes
  pub sign : Bytes
  pub digits : Bytes
  pub shape : s ≡ space ++ (sign ++ digits)
  pub all_space : All is_space space
  pub is_sign : (sign ≡ []) ⊎ (sign ≡ b'+' ∷ [])
  pub not_nil : digits ≢ []
  pub is_digits : All isdigit digits
  pub is_value : value_from 0 digits ≡ v

skip_space-All : (space s : Bytes) → All is_space space → skip_space (space ++ s) ≡ skip_space s
unfolding skip_space
skip_space-All [] s h = refl
skip_space-All (c ∷ space) s h = rw (h.0) (skip_space-All space s h.1)

read_digits-All :
    (acc : ℕ) (digits : Bytes)
    → All isdigit digits
    → read_digits acc digits ≡ (value_from acc digits, [])
unfolding read_digits
read_digits-All acc [] h = refl
read_digits-All acc (c ∷ s) h = rw (h.0) (read_digits-All (acc * 10 + (c - b'0')) s h.1)

skip_space_split : (s : Bytes) → (space : Bytes) × All is_space space × (s ≡ space ++ skip_space s)
unfolding skip_space
skip_space_split [] = ([], tt, refl)
skip_space_split (c ∷ s) = elim (Bool-cases (is_space c)) [
  | inl t ↦
      let (space, all, e) = skip_space_split s in rw t (c ∷ space, (t, all), ap (λ x. c ∷ x) e)
  | inr f ↦ rw f ([], tt, refl)
]

-- When nothing is left, all were digits.
read_digits_end :
    (acc : ℕ) (s : Bytes) {v : ℕ}
    → read_digits acc s ≡ (v, [])
    → All isdigit s × (value_from acc s ≡ v)
unfolding read_digits
read_digits_end acc [] e = (tt, ap (λ p. p.0) e)
read_digits_end acc (c ∷ s) e = elim (Bool-cases (isdigit c)) [
  | inl t ↦ let (all, v) = read_digits_end (acc * 10 + (c - b'0')) s (rw t at e) in ((t, all), v)
  | inr f ↦ cc (rw f at e)
]

read_number_complete :
    (digits : Bytes)
    → digits ≢ []
    → All isdigit digits
    → read_number false digits ≡ some (false, value_from 0 digits, [])
unfolding read_number
read_number_complete [] h d = absurd (h refl)
read_number_complete (c ∷ s) h d = rw (d.0) (rw (read_digits-All 0 (c ∷ s) d))

read_number_sound :
    (negative : Bool) (s : Bytes) {sign : Bool} {v : ℕ}
    → read_number negative s ≡ some (sign, v, [])
    → (sign ≡ negative) × (s ≢ []) × All isdigit s × (value_from 0 s ≡ v)
unfolding read_number
read_number_sound negative [] e = cc
read_number_sound negative (c ∷ s) {sign} {v} e = elim (Bool-cases (isdigit c)) [
  | inl t ↦
      let done = some_inj (rw t at e) in
      let rest : read_digits 0 (c ∷ s) ≡ (v, []) = ap (λ (p : Bool × ℕ × Bytes). (p.1, p.2)) done in
      let (all, value) = read_digits_end 0 (c ∷ s) rest in
      (sym (ap (λ p. p.0) done), (λ q. cc), all, value)
  | inr f ↦ cc (rw f at e)
]

skip_space_digit : (c : ℕ) (s : Bytes) → isdigit c ≡ true → skip_space (c ∷ s) ≡ c ∷ s
unfolding skip_space
skip_space_digit c s h = ground arith

read_signed_complete :
    (sign digits : Bytes)
    → (sign ≡ []) ⊎ (sign ≡ b'+' ∷ [])
    → digits ≢ []
    → All isdigit digits
    → read_signed (skip_space (sign ++ digits)) ≡ some (false, value_from 0 digits, [])
unfolding read_signed skip_space
read_signed_complete sign [] g h d = absurd (h refl)
read_signed_complete sign (c ∷ s) (inl e) h d = rw e (
    rw (skip_space_digit c s d.0) (
      let minus : (c == b'-') ≡ false = ground (arith, d.0) in
      let plus : (c == b'+') ≡ false = ground (arith, d.0) in
      rw (minus, plus) (read_number_complete (c ∷ s) h d)))
read_signed_complete sign (c ∷ s) (inr e) h d = rw e (read_number_complete (c ∷ s) h d)

strtol_complete : (s : Bytes) {v : ℕ} → IsNumeral s v → strtol s ≡ some (false, v, [])
unfolding strtol
strtol_complete s n = rw (n.shape) (
    rw (skip_space-All n.space (n.sign ++ n.digits) n.all_space) (
      read_signed_complete n.sign n.digits n.is_sign n.not_nil n.is_digits
      ∙ ap (λ v. some (false, v, [])) n.is_value))

read_signed_sound :
    (s : Bytes) {v : ℕ}
    → read_signed s ≡ some (false, v, [])
    → (sign : Bytes) × (digits : Bytes) × (s ≡ sign ++ digits)
      × ((sign ≡ []) ⊎ (sign ≡ b'+' ∷ []))
      × (digits ≢ [])
      × All isdigit digits
      × (value_from 0 digits ≡ v)
unfolding read_signed
read_signed_sound [] e = cc
read_signed_sound (c ∷ s) e = elim (Bool-cases (c == b'-')) [
  | inl minus ↦ let (sign, _, _, _) = read_number_sound true s (rw minus at e) in cc
  | inr other ↦ elim (Bool-cases (c == b'+')) [
    | inl plus ↦
        let (_, n, d, v) = read_number_sound false s (rw (other, plus) at e) in
        (b'+' ∷ [], s, ap (λ x. x ∷ s) ((==_iff c b'+').0 plus), inr refl, n, d, v)
    | inr f ↦
        let (_, n, d, v) = read_number_sound false (c ∷ s) (rw (other, f) at e) in
        ([], c ∷ s, refl, inl refl, n, d, v)
  ]
]

strtol_sound : (s : Bytes) {v : ℕ} → strtol s ≡ some (false, v, []) → IsNumeral s v
unfolding strtol
strtol_sound s e =
    let (space, all, front) = skip_space_split s in
    let (sign, digits, back, is_sign, n, d, v) = read_signed_sound (skip_space s) e in
    record {
      space = space;
      sign = sign;
      digits = digits;
      shape = front ∙ ap (λ x. space ++ x) back;
      all_space = all;
      is_sign = is_sign;
      not_nil = n;
      is_digits = d;
      is_value = v;
    }

checks_sound :
    (negative : Bool) (v : ℕ) (end : Bytes) (port : ℕ)
    → (if out_of_range negative v || not (is_empty end)
        then none
        else if negative || v == 0 || ltb 65535 v
        then none
        else some (v % 2 ^ 16))
      ≡ some port
    → (negative ≡ false) × (end ≡ []) × (v ≡ port) × (1 ≤ port) × (port ≤ 65535)
checks_sound negative v [] port e = ground arith
checks_sound negative v (c ∷ s) port e = ground arith

parse_port_sound :
    (s : Bytes) (port : ℕ)
    → parse_port s ≡ some port
    → IsNumeral s port × (1 ≤ port) × (port ≤ 65535)
unfolding parse_port
parse_port_sound s port e = elim (Option-cases (strtol s)) [
  | inl missing ↦ cc (rw (missing, parse_port) at e)
  | inr ((negative, v, end), found) ↦
      let (sign, ended, value, low, high) =
        checks_sound negative v end port (rw (found, parse_port) at e) in
      (strtol_sound s (rw (sign, ended, value) at found), low, high)
]

parse_port_complete :
    (s : Bytes) (port : ℕ) → IsNumeral s port → 1 ≤ port → port ≤ 65535 → parse_port s ≡ some port
unfolding parse_port
parse_port_complete s port n low high = rw (strtol_complete s n, parse_port) (ground arith)

-- `parse_port` accepts exactly the texts that are white space, perhaps a plus sign, and digits to the end,
-- whose value is between 1 and 65535, and gives that value.
pub parse_port_iff :
    (s : Bytes) (port : ℕ)
    → (parse_port s ≡ some port) ↔ (IsNumeral s port × (1 ≤ port) × (port ≤ 65535))
parse_port_iff s port = (parse_port_sound s port, λ h. parse_port_complete s port h.0 h.1 h.2)
