-- ===== src/Agent/Settings/Images.antt =====
-- The names of images.
use Prim.Native.String
use Prim.Native.String.{char_at}
use tiproxy_machine_operator.Agent.Settings.{cut_tag, image_base, is_after, last_index, next_index}
use tiproxy_machine_operator.Cloud.Aws.Names.{prefix, size}
use tiproxy_machine_operator.Prelude.{
  Bool-cases, Option-cases, String, ap, arith, false, inl, inr, int_eq, nat_eq, none, refl, some,
  string_eq, suc, true, ℕ, ◌+◌, ◌<◌, ◌==◌, ◌∙◌, ◌≡◌,
}
use tiproxy_machine_operator.Text.{append-cons, append-nil, trim_space}

last_index-append :
    (c : ℕ) (s t : String) → last_index c t ≡ none → last_index c (String.◌++◌ s t) ≡ last_index c s
unfolding last_index
last_index-append c String.[] t absent = ap (last_index c) (append-nil t) ∙ absent
last_index-append c (String.◌∷◌ d s) t absent =
    ap (last_index c) (append-cons d s t) ∙ ap (next_index c d) (last_index-append c s t absent)

last_index-append_some :
    (c n : ℕ) (s t : String)
    → last_index c t ≡ some n
    → last_index c (String.◌++◌ s t) ≡ some (size s + n)
unfolding last_index
last_index-append_some c n String.[] t present =
    ap (last_index c) (append-nil t) ∙ present ∙ ground arith
last_index-append_some c n (String.◌∷◌ d s) t present =
    ap (last_index c) (append-cons d s t)
    ∙ ap (next_index c d) (last_index-append_some c n s t present)
    ∙ ground arith

last_index-bound : (c n : ℕ) (s : String) → last_index c s ≡ some n → n < size s
unfolding last_index
last_index-bound c n String.[] present = ground (arith, present)
last_index-bound c n (String.◌∷◌ d s) present = elim (Option-cases (last_index c s)) [
  | inl absent ↦ ground (arith, present, absent)
  | inr (m, later) ↦ ground (arith, present, later, last_index-bound c m s later)
]

prefix-append : (s t : String) → prefix (size s) (String.◌++◌ s t) ≡ s
unfolding prefix
prefix-append String.[] t = refl
prefix-append (String.◌∷◌ d s) t =
    ap (prefix (suc (size s))) (append-cons d s t) ∙ ap (String.◌∷◌ d) (prefix-append s t)

-- A reference `repository:tag`.
abbrev pub tagged : String → String → String
tagged repository tag = String.◌++◌ repository (String.◌∷◌ (char_at ":" 0) tag)

-- The slash, if there is one, stands before the end of the repository.
is_after-bound :
    (repository : String) → is_after (size repository) (last_index b'/' repository) ≡ true
is_after-bound repository = elim (Option-cases (last_index b'/' repository)) [
  | inl absent ↦ rw absent refl
  | inr (n, present) ↦ rw present (ground (arith, last_index-bound b'/' n repository present))
]

last_index-tagged :
    (repository tag : String)
    → last_index b':' tag ≡ none
    → last_index b':' (tagged repository tag) ≡ some (size repository)
unfolding last_index
last_index-tagged repository tag no_colon =
    last_index-append_some b':' 0 repository _ (ap (next_index b':' (char_at ":" 0)) no_colon)
    ∙ ground arith

tagged-nonempty :
    (repository tag : String) → last_index b':' tag ≡ none → tagged repository tag == "" ≡ false
unfolding last_index
tagged-nonempty repository tag no_colon = elim (Bool-cases (tagged repository tag == "")) [
  | inr given ↦ given
  | inl empty ↦
      let nothing : last_index b':' (tagged repository tag) ≡ none =
        ap (last_index b':') ((string_eq.beq_iff (tagged repository tag) "").0 empty) in
      ground (arith, nothing, last_index-tagged repository tag no_colon)
]

-- imageBase of a reference `repository:tag` is the repository, if the reference has no space
-- around it and the tag has neither a slash nor a colon.
pub image_base-tagged :
    (repository tag : String)
    → trim_space (tagged repository tag) ≡ tagged repository tag
    → last_index b'/' tag ≡ none
    → last_index b':' tag ≡ none
    → image_base (tagged repository tag) ≡ repository
unfolding image_base cut_tag last_index
image_base-tagged repository tag trimmed no_slash no_colon =
    let slash : last_index b'/' (tagged repository tag) ≡ last_index b'/' repository =
      last_index-append b'/' repository _ (ap (next_index b'/' (char_at ":" 0)) no_slash) in
    let colon = last_index-tagged repository tag no_colon in
    rw (trimmed, tagged-nonempty repository tag no_colon, slash, colon, is_after-bound repository)
      (prefix-append repository _)
