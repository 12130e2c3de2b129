-- ===== src/Text.antt =====
-- Go strings as lists of code points, and what the code uses of the package `strings`: `TrimSpace`
-- with the white space of Unicode, and `ToLower` and `ToUpper` on the letters of ASCII (a letter
-- outside ASCII is left as it is).
use Prim.Native.Char.{code}
use Prim.Native.String.{String}
use model_dock.Base.{
  ℕ, ◌+◌, ◌-◌, ◌≡◌, refl, ◌↔◌, Bool, true, false, ◌&&◌, ◌||◌, List, [], ◌∷◌, arith, leb, ◌==◌,
  if◌then◌else◌, All, inl, inr, Bool-cases,
}

abbrev pub Text : Type 0
Text = List ℕ

-- The code points of a literal.
abbrev pub codes : String → Text
codes String.[] = []
codes (String.◌∷◌ c s) = code c ∷ codes s

abbrev pub text_eq : Text → Text → Bool
text_eq [] [] = true
text_eq (a ∷ s) (b ∷ t) = a == b && text_eq s t
text_eq [] (b ∷ t) = false
text_eq (a ∷ s) [] = false

pub text_eq→eq : (s t : Text) → text_eq s t ≡ true → s ≡ t
text_eq→eq [] [] h = refl
text_eq→eq (a ∷ s) (b ∷ t) h = ground (arith, text_eq→eq s t)
text_eq→eq [] (b ∷ t) h = ground arith
text_eq→eq (a ∷ s) [] h = ground arith

pub text_eq_refl : (s : Text) → text_eq s s ≡ true
text_eq_refl [] = refl
text_eq_refl (a ∷ s) = ground (arith, text_eq_refl s)

pub text_eq_iff : (s t : Text) → (text_eq s t ≡ true) ↔ (s ≡ t)
text_eq_iff s t = (text_eq→eq s t, λ e. rw (← e) (text_eq_refl s))

-- unicode.IsSpace
unfoldable pub is_space : ℕ → Bool
is_space c =
    (leb 9 c && leb c 13)
    || c == 32
    || c == 0x85
    || c == 0xa0
    || c == 0x1680
    || (leb 0x2000 c && leb c 0x200a)
    || c == 0x2028
    || c == 0x2029
    || c == 0x202f
    || c == 0x205f
    || c == 0x3000

unfoldable pub trim_left : Text → Text
unfolding is_space
trim_left [] = []
trim_left (c ∷ s) = if is_space c then trim_left s else c ∷ s

-- A character before the trimmed rest: a space stays only if something stands behind it.
abbrev before_trimmed : ℕ → Text → Text
before_trimmed c [] = if is_space c then [] else c ∷ []
before_trimmed c (d ∷ t) = c ∷ d ∷ t

unfoldable pub trim_right : Text → Text
unfolding is_space
trim_right [] = []
trim_right (c ∷ s) = before_trimmed c (trim_right s)

-- strings.TrimSpace
unfoldable pub trim_space : Text → Text
unfolding trim_left trim_right
trim_space s = trim_right (trim_left s)

abbrev pub lower : ℕ → ℕ
lower c = if leb b'A' c && leb c b'Z' then c + 32 else c

abbrev upper : ℕ → ℕ
upper c = if leb b'a' c && leb c b'z' then c - 32 else c

-- strings.ToLower
unfoldable pub to_lower : Text → Text
to_lower [] = []
to_lower (c ∷ s) = lower c ∷ to_lower s

-- strings.ToUpper
unfoldable pub to_upper : Text → Text
to_upper [] = []
to_upper (c ∷ s) = upper c ∷ to_upper s

-- strings.EqualFold
unfoldable pub equal_fold : Text → Text → Bool
unfolding to_lower
equal_fold s t = text_eq (to_lower s) (to_lower t)

abbrev pub IsPlain : ℕ → Type 0
IsPlain c = is_space c ≡ false

pub trim_right-eq_of_plain : (s : Text) → All IsPlain s → trim_right s ≡ s
unfolding trim_right
trim_right-eq_of_plain [] h = refl
trim_right-eq_of_plain (c ∷ []) h = rw h.0
trim_right-eq_of_plain (c ∷ d ∷ s) h = rw (trim_right-eq_of_plain (d ∷ s) h.1)

-- A text with no white space in it is its own trimmed form.
pub trim_space-eq_of_plain : (s : Text) → All IsPlain s → trim_space s ≡ s
unfolding trim_space
trim_space-eq_of_plain [] h = refl
trim_space-eq_of_plain (c ∷ s) h = rw h.0 (trim_right-eq_of_plain (c ∷ s) h)

trim_right_idem : (s : Text) → trim_right (trim_right s) ≡ trim_right s
unfolding trim_right
trim_right_idem [] = refl
trim_right_idem (c ∷ s) = stays (trim_right s) (trim_right_idem s)
  where
    stays : (t : Text) → trim_right t ≡ t → trim_right (before_trimmed c t) ≡ before_trimmed c t
    stays [] h = elim (Bool-cases (is_space c)) [ inl e ↦ rw e | inr e ↦ rw e (rw e) ]
    stays (d ∷ t) h = rw h

-- A text that begins with a character other than white space.
abbrev Begins : Text → Type 0
Begins [] = Unit
Begins (c ∷ s) = IsPlain c

Begins-trim_left : (s : Text) → Begins (trim_left s)
unfolding trim_left
Begins-trim_left [] = tt
Begins-trim_left (c ∷ s) = elim (Bool-cases (is_space c)) [
  | inl e ↦ rw e (Begins-trim_left s)
  | inr e ↦ rw e e
]

trim_left-eq_of_Begins : (s : Text) → Begins s → trim_left s ≡ s
unfolding trim_left
trim_left-eq_of_Begins [] h = refl
trim_left-eq_of_Begins (c ∷ s) h = rw h

Begins-trim_right : (s : Text) → Begins s → Begins (trim_right s)
unfolding trim_right
Begins-trim_right [] h = tt
Begins-trim_right (c ∷ s) h = front (trim_right s)
  where
    front : (t : Text) → Begins (before_trimmed c t)
    front [] = rw h h
    front (d ∷ t) = h

-- Trimming twice is trimming once.
pub trim_space_idem : (s : Text) → trim_space (trim_space s) ≡ trim_space s
unfolding trim_space
trim_space_idem s =
    let trimmed = trim_left s in
    rw
      (trim_left-eq_of_Begins (trim_right trimmed) (Begins-trim_right trimmed (Begins-trim_left s)))
      (trim_right_idem trimmed)
