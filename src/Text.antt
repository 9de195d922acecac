-- ===== src/Text.antt =====
-- What the program uses of Go's packages strings, strconv and fmt, over the native texts.
--
-- `to_lower` is exact on ASCII and on the two other code points (U+0130 and U+212A) whose lower
-- case is ASCII; it leaves every other letter alone. The program compares lowered texts with
-- ASCII constants only, and there the difference does not show.
use Prim.Native.String
use text.Mathlib.TextEquality.{eq_iff}
use Prim.Native.Char.{Char, code}
use Prim.Native.String.{char_at}
use tiproxy_machine_operator.Prelude.{
  Bool, List, String, [], arith, eqb, false, if◌then◌else◌, int_eq, leb, ltb, nat_eq, negsuc, pos,
  refl, string_eq, suc, zero, ℕ, ℤ, ◌%◌, ◌&&◌, ◌+◌, ◌-◌, ◌/◌, ◌==◌, ◌||◌, ◌∷◌, ◌≡◌,
}

-- The pieces of a `fmt.Sprintf`, put together.
unfoldable pub concat : List String → String
concat [] = ""
concat (s ∷ rest) = String.◌++◌ s (concat rest)

pub append-nil : (t : String) → String.◌++◌ "" t ≡ t
append-nil t = λ i. String.append.nil t i

pub append-cons :
    (c : Char) (s t : String) → String.◌++◌ (String.◌∷◌ c s) t ≡ String.◌∷◌ c (String.◌++◌ s t)
append-cons c s t = λ i. String.append.cons c s t i

-- unicode.IsSpace: the code points with the property White_Space.
unfoldable pub is_space : ℕ → Bool
is_space c =
    (leb 0x9 c && leb c 0xd)
    || eqb c 0x20
    || eqb c 0x85
    || eqb c 0xa0
    || eqb c 0x1680
    || (leb 0x2000 c && leb c 0x200a)
    || eqb c 0x2028
    || eqb c 0x2029
    || eqb c 0x202f
    || eqb c 0x205f
    || eqb c 0x3000

trim_left : String → String
unfolding is_space
trim_left String.[] = String.[]
trim_left (String.◌∷◌ c s) = if is_space (code c) then trim_left s else String.◌∷◌ c s

trim_right : String → String
unfolding is_space
trim_right String.[] = String.[]
trim_right (String.◌∷◌ c s) =
    let r = trim_right s in if is_space (code c) && r == "" then "" else String.◌∷◌ c r

-- strings.TrimSpace
unfoldable pub trim_space : String → String
unfolding trim_left trim_right
trim_space s = trim_right (trim_left s)

cons_ne : (c : Char) (s : String) → String.◌∷◌ c s ≡ "" → ⊥
cons_ne c s h = cc

-- What begins with a character that is no space is not blank.
pub trim_space-cons :
    (c : Char) (s : String)
    → is_space (code c) ≡ false
    → (trim_space (String.◌∷◌ c s) == "") ≡ false
unfolding trim_space trim_left trim_right
trim_space-cons c s solid =
    rw (solid, solid)
      (ground (arith, cons_ne c (trim_right s), eq_iff (String.◌∷◌ c (trim_right s)) ""))

lower_char : Char → Char
lower_char c =
    if leb b'A' (code c) && leb (code c) b'Z'
    then char_at "abcdefghijklmnopqrstuvwxyz" (code c - b'A')
    else if eqb (code c) 0x130
    then char_at "i" 0
    else if eqb (code c) 0x212a
    then char_at "k" 0
    else c

-- strings.ToLower
unfoldable pub to_lower : String → String
unfolding lower_char
to_lower String.[] = String.[]
to_lower (String.◌∷◌ c s) = String.◌∷◌ (lower_char c) (to_lower s)

digits : ℕ → ℕ → String → String
digits zero n out = out
digits (suc fuel) n out =
    let next = String.◌∷◌ (char_at "0123456789" (n % 10)) out in
    let rest = digits fuel (n / 10) next in if ltb n 10 then next else rest

-- `%d` of a natural number. The number itself is fuel enough: each round divides by ten.
unfoldable pub show_ℕ : ℕ → String
unfolding digits
show_ℕ n = digits (suc n) n ""

-- `%d`
unfoldable pub show_int : ℤ → String
unfolding show_ℕ
show_int (pos n) = show_ℕ n
show_int (negsuc n) = String.◌++◌ "-" (show_ℕ (n + 1))

-- strings.Join
unfoldable pub join : List String → String → String
join [] sep = ""
join (s ∷ []) sep = s
join (s ∷ t ∷ rest) sep = String.◌++◌ s (String.◌++◌ sep (join (t ∷ rest) sep))

trim_space_test : trim_space " \t a b \n" ≡ "a b"
unfolding trim_space
trim_space_test = refl

to_lower_test : to_lower "Balanced_ONLY" ≡ "balanced_only"
unfolding to_lower
to_lower_test = refl

show_int_test : (show_int (pos 65535) ≡ "65535") × (show_int (negsuc 41) ≡ "-42")
unfolding show_int
show_int_test = (refl, refl)
