-- ===== src/Cloud/Aws/Names/Bounds.antt =====
-- The length and the first letter of the names that awsResourceName makes, and the end of its loop.
use Prim.Native.String
use Prim.Native.String.{char_at}
use tiproxy_machine_operator.Cloud.Aws.Names.{
  aws_resource_name, clean, collapse, has_double, is_dash, lead, long_name, or_tpm, prefix,
  replace_double, shorten, size, starts_with_letter, trim_dash, trim_left_dash, trim_right_dash,
}
use tiproxy_machine_operator.Cloud.Aws.Names.Shape.{
  Allowed, append-Allowed, clean-Allowed, collapse-Allowed, lead-Allowed, or_tpm-Allowed,
  prefix-Allowed, trim-Allowed,
}
use tiproxy_machine_operator.Prelude.{
  Bool-cases, String, [], ap, arith, eqb, eqb_iff, false, inl, inr, int_eq, leb, ltb, nat_eq, refl,
  string_eq, suc, true, zero, ℕ, ◌&&◌, ◌+◌, ◌-◌, ◌<◌, ◌==◌, ◌∙◌, ◌∷◌, ◌≡◌, ◌≤◌,
}
use tiproxy_machine_operator.Text.{append-cons, append-nil, concat, to_lower, trim_space}

size-append : (s t : String) → size (String.◌++◌ s t) ≡ size s + size t
size-append String.[] t = ap size (append-nil t) ∙ omega arith
size-append (String.◌∷◌ c s) t = ap size (append-cons c s t) ∙ omega (arith, size-append s t)

size-prefix : (n : ℕ) (s : String) → size (prefix n s) ≤ n
unfolding prefix
size-prefix zero s = omega arith
size-prefix (suc n) String.[] = omega arith
size-prefix (suc n) (String.◌∷◌ c s) = omega (arith, size-prefix n s)

size-trim_left : (s : String) → size (trim_left_dash s) ≤ size s
unfolding trim_left_dash
size-trim_left String.[] = omega arith
size-trim_left (String.◌∷◌ c s) = elim (Bool-cases (is_dash c)) [
  | inl skip ↦ rw skip (omega (arith, size-trim_left s))
  | inr stop ↦ rw stop (omega arith)
]

size-trim_right : (s : String) → size (trim_right_dash s) ≤ size s
unfolding trim_right_dash
size-trim_right String.[] = omega arith
size-trim_right (String.◌∷◌ c s) = elim (Bool-cases (is_dash c && trim_right_dash s == "")) [
  | inl skip ↦ rw skip (omega arith)
  | inr stop ↦ rw stop (omega (arith, size-trim_right s))
]

size-trim : (s : String) → size (trim_dash s) ≤ size s
unfolding trim_dash
size-trim s = omega (arith, size-trim_left s, size-trim_right (trim_left_dash s))

size-or_tpm : (s : String) (n : ℕ) → 3 ≤ n → size s ≤ n → size (or_tpm s) ≤ n
size-or_tpm s n three le = elim (Bool-cases (s == "")) [
  | inl blank ↦ rw blank three
  | inr given ↦ rw given le
]

size-replace_le : (s : String) → size (replace_double s) ≤ size s
unfolding replace_double
size-replace_le String.[] = omega arith
size-replace_le (String.◌∷◌ c String.[]) = omega arith
size-replace_le (String.◌∷◌ c (String.◌∷◌ d s)) = elim (Bool-cases (is_dash c && is_dash d)) [
  | inl two ↦ rw two (omega (arith, size-replace_le s))
  | inr single ↦ rw single (omega (arith, size-replace_le (String.◌∷◌ d s)))
]

size-replace_lt : (s : String) → has_double s ≡ true → size (replace_double s) < size s
unfolding replace_double has_double
size-replace_lt String.[] h = absurd (cc)
size-replace_lt (String.◌∷◌ c String.[]) h = absurd (cc)
size-replace_lt (String.◌∷◌ c (String.◌∷◌ d s)) h = elim (Bool-cases (is_dash c && is_dash d)) [
  | inl two ↦ rw two (omega (arith, size-replace_le s))
  | inr single ↦ rw single (omega (arith, size-replace_lt (String.◌∷◌ d s) (rw single at h)))
]

-- As many rounds as the name has characters are enough: then nothing is left to replace.
collapse-done : (fuel : ℕ) (s : String) → size s ≤ fuel → has_double (collapse fuel s) ≡ false
unfolding collapse has_double
collapse-done zero String.[] le = refl
collapse-done zero (String.◌∷◌ c s) le = absurd (omega arith)
collapse-done (suc fuel) s le = elim (Bool-cases (has_double s)) [
  | inl more ↦
      rw more (collapse-done fuel (replace_double s) (omega (arith, size-replace_lt s more)))
  | inr single ↦ rw (single, single) refl
]

replace-start : (s : String) → starts_with_letter (replace_double s) ≡ starts_with_letter s
unfolding replace_double
replace-start String.[] = refl
replace-start (String.◌∷◌ c String.[]) = refl
replace-start (String.◌∷◌ c (String.◌∷◌ d s)) = elim (Bool-cases (is_dash c && is_dash d)) [
  | inl two ↦ rw two (ground arith)
  | inr single ↦ rw single refl
]

collapse-start :
    (fuel : ℕ) (s : String) → starts_with_letter (collapse fuel s) ≡ starts_with_letter s
unfolding collapse
collapse-start zero s = refl
collapse-start (suc fuel) s = elim (Bool-cases (has_double s)) [
  | inl more ↦ rw more (collapse-start fuel (replace_double s) ∙ replace-start s)
  | inr single ↦ rw single refl
]

lead-start : (s : String) → starts_with_letter (lead s) ≡ true
unfolding concat
lead-start s = elim (Bool-cases (starts_with_letter s)) [
  | inl fine ↦ rw fine fine
  | inr bare ↦
      rw bare (ap starts_with_letter (append-cons (char_at "t" 0) "pm-" (String.◌++◌ s "")))
]

prefix-start :
    (n : ℕ) (s : String)
    → 0 < n
    → starts_with_letter s ≡ true
    → starts_with_letter (prefix n s) ≡ true
unfolding prefix
prefix-start zero s pos_n h = absurd (omega arith)
prefix-start (suc n) String.[] pos_n h = h
prefix-start (suc n) (String.◌∷◌ c s) pos_n h = h

or_tpm-start : (s : String) → starts_with_letter s ≡ true → starts_with_letter (or_tpm s) ≡ true
or_tpm-start s h = elim (Bool-cases (s == "")) [
  | inl blank ↦ rw blank refl
  | inr given ↦ rw given h
]

trim-start :
    (s : String) → starts_with_letter s ≡ true → starts_with_letter (or_tpm (trim_dash s)) ≡ true
unfolding trim_dash trim_left_dash trim_right_dash
trim-start String.[] h = absurd (cc)
trim-start (String.◌∷◌ c s) h =
    let plain : is_dash c ≡ false = ground arith in
    or_tpm-start (trim_dash (String.◌∷◌ c s)) (rw (plain, plain) h)

append-start :
    (s t : String) → starts_with_letter s ≡ true → starts_with_letter (String.◌++◌ s t) ≡ true
append-start String.[] t h = absurd (cc)
append-start (String.◌∷◌ c s) t h = ap starts_with_letter (append-cons c s t) ∙ h

long_name-start : (raw : String) → starts_with_letter (long_name raw) ≡ true
unfolding long_name
long_name-start raw =
    let name = or_tpm (trim_dash (clean (to_lower (trim_space raw)))) in
    collapse-start (size (lead name)) (lead name) ∙ lead-start name

long_name-Allowed : (raw : String) → Allowed (long_name raw)
unfolding long_name
long_name-Allowed raw =
    collapse-Allowed _ _ (
      lead-Allowed _
        (or_tpm-Allowed _ (trim-Allowed _ (clean-Allowed (to_lower (trim_space raw))))))

-- What the name of a load balancer or of a target group has to be.
abbrev pub IsName : ℕ → String → Type 0
IsName max_len s = (size s ≤ max_len) × Allowed s × (starts_with_letter s ≡ true)

module _ (sha256_hex : String → String) (hex : (s : String) → Allowed (sha256_hex s)) where
  -- The prefix and the suffix, put together.
  joined-IsName :
      (name suffix : String) (max_len prefix_len : ℕ)
      → 3 ≤ prefix_len
      → prefix_len + size suffix ≤ max_len
      → Allowed name
      → Allowed suffix
      → starts_with_letter name ≡ true
      → IsName max_len (concat (or_tpm (trim_dash (prefix prefix_len name)) ∷ suffix ∷ []))
  unfolding concat
  joined-IsName name suffix max_len prefix_len three room a b start =
      let front = or_tpm (trim_dash (prefix prefix_len name)) in
      let back = String.◌++◌ suffix "" in
      (
        omega (
          arith,
          size-append front back,
          size-append suffix "",
          size-or_tpm (trim_dash (prefix prefix_len name)) prefix_len three
              (omega (arith, size-trim (prefix prefix_len name), size-prefix prefix_len name)),
        ),
        append-Allowed front back
            (or_tpm-Allowed _ (trim-Allowed _ (prefix-Allowed prefix_len name a)))
            (append-Allowed suffix "" b tt),
        append-start front back (
            trim-start (prefix prefix_len name) (prefix-start prefix_len name (omega arith) start)),
      )

  shorten-IsName :
      (name : String) (max_len : ℕ)
      → 0 < max_len
      → Allowed name
      → starts_with_letter name ≡ true
      → IsName max_len (shorten sha256_hex name max_len)
  unfolding shorten concat
  shorten-IsName name max_len positive a start =
      let suffix = concat ("-" ∷ prefix 8 (sha256_hex name) ∷ []) in
      let room = max_len - size suffix in
      elim (Bool-cases (leb (size name) max_len)) [
        | inl short ↦ rw short (ground arith, a, start)
        | inr long ↦ rw long (elim (Bool-cases (ltb room 3)) [
          | inl tight ↦ rw tight (
            size-prefix max_len name,
            prefix-Allowed max_len name a,
            prefix-start max_len name positive start,
          )
          | inr wide ↦ rw wide (
              joined-IsName name suffix max_len room (ground arith) (ground arith) a
                (append-Allowed "-" _ (refl, tt)
                  (append-Allowed _ "" (prefix-Allowed 8 _ (hex name)) tt))
                start)
        ])
      ]

  -- awsResourceName with a positive limit returns a name within the limit, of lower-case letters,
  -- digits and dashes, that starts with a letter, if the digits of SHA-256 are such characters.
  pub aws_resource_name-IsName :
      (raw : String) (max_len : ℕ)
      → 0 < max_len
      → IsName max_len (aws_resource_name sha256_hex raw max_len)
  unfolding aws_resource_name
  aws_resource_name-IsName raw max_len positive =
      let some_room : eqb max_len 0 ≡ false = ground (arith, eqb_iff max_len 0) in
      rw some_room (
        shorten-IsName (long_name raw) max_len positive (long_name-Allowed raw)
          (long_name-start raw))

-- The loop of awsResourceName that replaces "--" by "-" ends with nothing to replace: no name has
-- two dashes in a row before it is shortened.
pub long_name-done : (raw : String) → has_double (long_name raw) ≡ false
unfolding long_name
long_name-done raw =
    let name = lead (or_tpm (trim_dash (clean (to_lower (trim_space raw))))) in
    collapse-done (size name) name (omega arith)
