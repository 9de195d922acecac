-- ===== src/Controller/Assign/Errors.antt =====
-- Which links assignPortsToLinks has errors for: those that get no port.
use text.Mathlib.TextEquality.{eq_iff}
use tiproxy_machine_operator.Api.{Link, MachinePort}
use tiproxy_machine_operator.Controller.Assign.{
  Assignment, MachinePortAllocation, assign_all_by_name, assign_by_name, assign_ports_to_links,
  assign_rest, assigned_ports, errors_for, insufficient_text, ordered_available,
}
use tiproxy_machine_operator.Controller.Assign.Ports.{by_name_cases, indexed}
use tiproxy_machine_operator.Prelude.{
  All, Bool, Bool-cases, List, String, [], arith, false, filter_by, inl, inr, int_eq, is_some,
  length, ltb, nat_eq, none, not, pos, refl, string_eq, suc, sym, true, ℕ, ℤ, ◌&&◌, ◌+◌, ◌<◌, ◌==◌,
  ◌||◌, ◌∷◌, ◌≡◌, ◌≤◌,
}
use tiproxy_machine_operator.Prelude.Assoc.{Map, get, get-put, put}

-- Whether a UID is that of one of the links.
unfoldable pub linked : List Link → String → Bool
linked [] u = false
linked (l ∷ ls) u = l.meta.uid == u || linked ls u

errors_for-lem :
    (msg : String) (ls : List Link) (assigned : Map String ℤ) (errors : Map String String)
    (u : String)
    → is_some (get u (errors_for msg ls assigned errors))
      ≡ (is_some (get u errors) || (linked ls u && not (is_some (get u assigned))))
unfolding errors_for linked
errors_for-lem msg [] assigned errors u = ground arith
errors_for-lem msg (l ∷ ls) assigned errors u =
    elim (Bool-cases (is_some (get l.meta.uid assigned))) [
      | inl has ↦
          rw has (ground (arith, errors_for-lem msg ls assigned errors u, eq_iff l.meta.uid u))
      | inr lacks ↦ rw lacks (
          ground (
            arith,
            errors_for-lem msg ls assigned (put l.meta.uid msg errors) u,
            get-put l.meta.uid u msg errors,
            eq_iff l.meta.uid u,
          ))
    ]

-- How many of the links have no port yet.
abbrev waiting : List Link → Map String ℤ → ℕ
waiting ls m = length (filter_by (λ l. not (is_some (get l.meta.uid m))) ls)

waiting-le : (ls : List Link) (m : Map String ℤ) → waiting ls m ≤ length ls
waiting-le [] m = omega arith
waiting-le (l ∷ ls) m = ground (arith, waiting-le ls m)

waiting-put-le :
    (u : String) (p : ℤ) (ls : List Link) (m : Map String ℤ) → waiting ls (put u p m) ≤ waiting ls m
waiting-put-le u p [] m = omega arith
waiting-put-le u p (l ∷ ls) m = ground (arith, waiting-put-le u p ls m, get-put u l.meta.uid p m)

waiting-put :
    (u : String) (p : ℤ) (ls : List Link) (m : Map String ℤ)
    → linked ls u ≡ true
    → get u m ≡ none
    → waiting ls (put u p m) < waiting ls m
unfolding linked
waiting-put u p [] m h unset = absurd (cc)
waiting-put u p (l ∷ ls) m h unset = ground (
  arith,
  waiting-put u p ls m,
  waiting-put-le u p ls m,
  get-put u l.meta.uid p m,
  eq_iff l.meta.uid u,
  eq_iff u l.meta.uid,
)

waiting-pos :
    (u : String) (ls : List Link) (m : Map String ℤ)
    → linked ls u ≡ true
    → get u m ≡ none
    → 0 < waiting ls m
waiting-pos u ls m h unset = omega (arith, waiting-put u (pos 0) ls m h unset)

length-put-le : (u : String) (p : ℤ) (m : Map String ℤ) → length (put u p m) ≤ suc (length m)
unfolding put
length-put-le u p [] = omega arith
length-put-le u p ((v, q) ∷ m) = ground (arith, length-put-le u p m)

module _ (all : List Link) where
  -- The ports given and the links that wait are no more than the links.
  abbrev Counts : Map String ℤ → Type 0
  Counts m = length m + waiting all m ≤ length all

  abbrev AllLinked : List Link → Type 0
  AllLinked = All (λ l. linked all l.meta.uid ≡ true)

  put-Counts :
      (u : String) (p : ℤ) (m : Map String ℤ)
      → linked all u ≡ true
      → get u m ≡ none
      → Counts m
      → Counts (put u p m)
  put-Counts u p m h unset c = omega (arith, waiting-put u p all m h unset, length-put-le u p m)

  all_by_name-Counts :
      (ls : List Link) (s : Assignment)
      → AllLinked ls
      → Counts s.assigned
      → Counts (assign_all_by_name ls s).assigned
  unfolding assign_all_by_name
  all_by_name-Counts [] s h c = c
  all_by_name-Counts (l ∷ ls) s h c =
      all_by_name-Counts ls (assign_by_name l s) h.1 (elim (by_name_cases l s) [
        | inl e ↦ rw e c
        | inr (p, unset, _, e) ↦ rw e (put-Counts l.meta.uid p s.assigned h.0 unset c)
      ])

  rest-Counts :
      (ls : List Link) (ps : List ℤ) (m : Map String ℤ)
      → AllLinked ls
      → Counts m
      → Counts (assign_rest ls ps m)
  unfolding assign_rest
  rest-Counts [] ps m h c = c
  rest-Counts (l ∷ ls) [] m h c = elim (Bool-cases (is_some (get l.meta.uid m))) [
    | inl skip ↦ rw skip (rest-Counts ls [] m h.1 c)
    | inr stop ↦ rw stop c
  ]
  rest-Counts (l ∷ ls) (p ∷ ps) m h c = elim (Bool-cases (is_some (get l.meta.uid m))) [
    | inl skip ↦ rw skip (rest-Counts ls (p ∷ ps) m h.1 c)
    | inr take ↦ rw take (
        rest-Counts ls ps (put l.meta.uid p m) h.1 (put-Counts l.meta.uid p m h.0 (ground arith) c))
  ]

linked-weaken : (all ls : List Link) (l : Link) → AllLinked all ls → AllLinked (l ∷ all) ls
unfolding linked
linked-weaken all [] l h = tt
linked-weaken all (x ∷ ls) l h = (ground arith, linked-weaken all ls l h.1)

linked_self : (ls : List Link) → AllLinked ls ls
unfolding linked
linked_self [] = tt
linked_self (l ∷ ls) =
    (ground (arith, eq_iff l.meta.uid l.meta.uid), linked-weaken ls ls l (linked_self ls))

assigned_ports-Counts :
    (links : List Link) (available : List MachinePortAllocation)
    → Counts links (assigned_ports links available)
unfolding assigned_ports
assigned_ports-Counts links available = rest-Counts links links _ _ (linked_self links) (
    all_by_name-Counts links links (indexed available) (linked_self links)
      (omega (arith, waiting-le links [])))

-- assignPortsToLinks has an error for a UID exactly when it is that of a link that got no port.
pub assign_ports_to_links-errors :
    (links : List Link) (ms : List MachinePort) (allocated : Map String ℤ) (u : String)
    → is_some (get u (assign_ports_to_links links ms allocated).1)
      ≡ (linked links u && not (is_some (get u (assign_ports_to_links links ms allocated).0)))
unfolding assign_ports_to_links get
assign_ports_to_links-errors [] ms allocated u = unfold linked in refl
assign_ports_to_links-errors (l ∷ ls) ms allocated u = go (ordered_available ms allocated) refl
  where
    go :
        (available : List MachinePortAllocation)
        → ordered_available ms allocated ≡ available
        → is_some (get u (assign_ports_to_links (l ∷ ls) ms allocated).1) ≡ (
            linked (l ∷ ls) u
            && not (is_some (get u (assign_ports_to_links (l ∷ ls) ms allocated).0)))
    go [] e =
        rw (e, assign_ports_to_links)
          (errors_for-lem "no TiProxyMachinePort has an allocated port" (l ∷ ls) [] [] u)
    go (a ∷ rest) e =
        let m = assigned_ports (l ∷ ls) (a ∷ rest) in
        elim (Bool-cases (ltb (length m) (length (l ∷ ls)))) [
          | inl few ↦
              rw (e, assign_ports_to_links, few)
                (errors_for-lem (insufficient_text (length (l ∷ ls)) (length (a ∷ rest))) (l ∷ ls) m
                  [] u)
          | inr enough ↦
              rw (e, assign_ports_to_links, enough)
                (elim (Bool-cases (linked (l ∷ ls) u && not (is_some (get u m)))) [
                  | inr fine ↦ sym fine
                  | inl lacks ↦ absurd (
                      ground (
                        arith,
                        assigned_ports-Counts (l ∷ ls) (a ∷ rest),
                        waiting-pos u (l ∷ ls) m,
                      ))
                ])
        ]
