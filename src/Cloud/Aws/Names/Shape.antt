-- ===== src/Cloud/Aws/Names/Shape.antt =====
-- The shape of the names that awsResourceName makes.
use Prim.Native.String
use Prim.Native.Char.{Char}
use tiproxy_machine_operator.Cloud.Aws.Names.{
  clean, clean_char, collapse, has_double, is_dash, is_digit, is_letter, lead, or_tpm, prefix,
  replace_double, starts_with_letter, trim_dash, trim_left_dash, trim_right_dash,
}
use tiproxy_machine_operator.Prelude.{
  Bool, Bool-cases, String, inl, inr, int_eq, nat_eq, refl, string_eq, subst, suc, sym, true, zero,
  ℕ, ◌&&◌, ◌==◌, ◌||◌, ◌≡◌,
}
use tiproxy_machine_operator.Text.{append-cons, append-nil, concat}

abbrev is_allowed : Char → Bool
is_allowed c = is_letter c || (is_digit c || is_dash c)

-- Only lower-case letters, digits and dashes.
abbrev pub Allowed : String → Type 0
Allowed String.[] = Unit
Allowed (String.◌∷◌ c s) = (is_allowed c ≡ true) × Allowed s

clean_char-allowed : (c : Char) → is_allowed (clean_char c) ≡ true
unfolding clean_char
clean_char-allowed c = elim (Bool-cases (is_letter c)) [
  | inl letter ↦ rw (letter, letter) refl
  | inr l ↦ elim (Bool-cases (is_digit c)) [
    | inl digit ↦ rw (l, digit, l, digit) refl
    | inr d ↦ elim (Bool-cases (is_dash c)) [
      | inl dashed ↦ rw (l, d, dashed, l, d, dashed) refl
      | inr other ↦ rw (l, d, other) refl
    ]
  ]
]

pub clean-Allowed : (s : String) → Allowed (clean s)
unfolding clean
clean-Allowed String.[] = tt
clean-Allowed (String.◌∷◌ c s) = (clean_char-allowed c, clean-Allowed s)

trim_left-Allowed : (s : String) → Allowed s → Allowed (trim_left_dash s)
unfolding trim_left_dash
trim_left-Allowed String.[] a = tt
trim_left-Allowed (String.◌∷◌ c s) a = elim (Bool-cases (is_dash c)) [
  | inl skip ↦ rw skip (trim_left-Allowed s a.1)
  | inr stop ↦ rw stop a
]

trim_right-Allowed : (s : String) → Allowed s → Allowed (trim_right_dash s)
unfolding trim_right_dash
trim_right-Allowed String.[] a = tt
trim_right-Allowed (String.◌∷◌ c s) a = elim (Bool-cases (is_dash c && trim_right_dash s == "")) [
  | inl skip ↦ rw skip tt
  | inr stop ↦ rw stop (a.0, trim_right-Allowed s a.1)
]

pub trim-Allowed : (s : String) → Allowed s → Allowed (trim_dash s)
unfolding trim_dash
trim-Allowed s a = trim_right-Allowed (trim_left_dash s) (trim_left-Allowed s a)

pub append-Allowed : (s t : String) → Allowed s → Allowed t → Allowed (String.◌++◌ s t)
append-Allowed String.[] t a b = subst Allowed (sym (append-nil t)) b
append-Allowed (String.◌∷◌ c s) t a b =
    subst Allowed (sym (append-cons c s t)) (a.0, append-Allowed s t a.1 b)

pub or_tpm-Allowed : (s : String) → Allowed s → Allowed (or_tpm s)
or_tpm-Allowed s a = elim (Bool-cases (s == "")) [
  | inl blank ↦ rw blank (refl, (refl, (refl, tt)))
  | inr given ↦ rw given a
]

pub lead-Allowed : (s : String) → Allowed s → Allowed (lead s)
unfolding concat
lead-Allowed s a = elim (Bool-cases (starts_with_letter s)) [
  | inl fine ↦ rw fine a
  | inr bare ↦
      rw bare
        (append-Allowed "tpm-" _ (refl, (refl, (refl, (refl, tt)))) (append-Allowed s "" a tt))
]

replace-Allowed : (s : String) → Allowed s → Allowed (replace_double s)
unfolding replace_double
replace-Allowed String.[] a = tt
replace-Allowed (String.◌∷◌ c String.[]) a = a
replace-Allowed (String.◌∷◌ c (String.◌∷◌ d s)) a = elim (Bool-cases (is_dash c && is_dash d)) [
  | inl two ↦ rw two (refl, replace-Allowed s a.1.1)
  | inr single ↦ rw single (a.0, replace-Allowed (String.◌∷◌ d s) a.1)
]

pub collapse-Allowed : (fuel : ℕ) (s : String) → Allowed s → Allowed (collapse fuel s)
unfolding collapse
collapse-Allowed zero s a = a
collapse-Allowed (suc fuel) s a = elim (Bool-cases (has_double s)) [
  | inl more ↦ rw more (collapse-Allowed fuel (replace_double s) (replace-Allowed s a))
  | inr single ↦ rw single a
]

pub prefix-Allowed : (n : ℕ) (s : String) → Allowed s → Allowed (prefix n s)
unfolding prefix
prefix-Allowed zero s a = tt
prefix-Allowed (suc n) String.[] a = tt
prefix-Allowed (suc n) (String.◌∷◌ c s) a = (a.0, prefix-Allowed n s a.1)
