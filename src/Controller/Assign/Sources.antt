-- ===== src/Controller/Assign/Sources.antt =====
-- assignPortsToLinks on its arguments: where the assigned ports come from.
use text.Mathlib.TextEquality.{eq_iff}
use tiproxy_machine_operator.Api.{Link, MachinePort}
use tiproxy_machine_operator.Controller.Assign.{
  Assignment, MachinePortAllocation, assign_all_by_name, assign_by_name, assign_ports_to_links,
  assign_rest, assigned_ports, key_of, ordered_available, remaining_ports,
}
use tiproxy_machine_operator.Controller.Assign.Ports.{
  assigned_ports-Injective, by_name_cases, contains-remaining, index_sound, indexed, ports_of,
}
use tiproxy_machine_operator.Prelude.{
  Bool-cases, List, Option-cases, String, [], arith, eqz, eqz_iff, inl, inr, int_eq, is_some, lez,
  ltz, map, not, pos, refl, some, sort_by, string_eq, subst, true, ℤ, ◌&&◌, ◌<ℤ◌, ◌∷◌, ◌≡◌, ◌⊎◌,
}
use tiproxy_machine_operator.Prelude.Assoc.{Map, contains, get, get-put, get-remove, put}
use tiproxy_machine_operator.Prelude.Sets.{Apart, contains-sort_by}

abbrev pub uids_of : List MachinePort → List String
uids_of = map (λ m. m.meta.uid)

-- A port on offer is the allocated port of some machine port, and positive.
pub available-source :
    (ms : List MachinePort) (allocated : Map String ℤ) (p : ℤ)
    → contains (ports_of (ordered_available ms allocated)) p ≡ true
    → (u : String) × (contains (uids_of ms) u ≡ true) × (get u allocated ≡ some p) × (pos 0 <ℤ p)
unfolding ordered_available contains
available-source [] allocated p h = absurd (cc)
available-source (m ∷ ms) allocated p h = elim (Option-cases (get m.meta.uid allocated)) [
  | inl e ↦
      let (u, known, has, up) = available-source ms allocated p (ground arith) in
      (u, ground arith, has, up)
  | inr (q, e) ↦ elim (Bool-cases (not (lez q (pos 0)) && eqz q p)) [
    | inl this ↦ (
      m.meta.uid,
      ground (arith, eq_iff m.meta.uid m.meta.uid),
      ground (arith, eqz_iff q p),
      ground (arith, eqz_iff q p),
    )
    | inr later ↦
        let (u, known, has, up) = available-source ms allocated p (ground arith) in
        (u, ground arith, has, up)
  ]
]

-- Allocated ports that differ from UID to UID differ on offer.
pub available-Apart :
    (ms : List MachinePort) (allocated : Map String ℤ)
    → Apart (uids_of ms)
    → ((u v : String) (p : ℤ) → get u allocated ≡ some p → get v allocated ≡ some p → u ≡ v)
    → Apart (ports_of (ordered_available ms allocated))
unfolding ordered_available
available-Apart [] allocated apart inj = tt
available-Apart (m ∷ ms) allocated apart inj = elim (Option-cases (get m.meta.uid allocated)) [
  | inl e ↦ rw (e, ordered_available) (available-Apart ms allocated apart.1 inj)
  | inr (q, e) ↦ elim (Bool-cases (lez q (pos 0))) [
    | inl low ↦ rw (e, low, ordered_available) (available-Apart ms allocated apart.1 inj)
    | inr up ↦
        rw (e, up, ordered_available)
          (
            elim (Bool-cases (contains (ports_of (ordered_available ms allocated)) q)) [
              | inr new ↦ new
              | inl twice ↦
                  let (u, known, has, _) = available-source ms allocated q twice in
                  absurd (ground (arith, inj u m.meta.uid q))
            ],
            available-Apart ms allocated apart.1 inj,
          )
  ]
]

module _ (available : List MachinePortAllocation) where
  record Sound (s : Assignment) : Type 0 where
    assigned :
        (u : String) (p : ℤ) → get u s.assigned ≡ some p → contains (ports_of available) p ≡ true
    offered :
        (k : String) (p : ℤ)
        → get k s.port_by_name ≡ some p
        → contains (ports_of available) p ≡ true

  all_by_name-Sound : (ls : List Link) (s : Assignment) → Sound s → Sound (assign_all_by_name ls s)
  unfolding assign_all_by_name
  all_by_name-Sound [] s i = i
  all_by_name-Sound (l ∷ ls) s i =
      all_by_name-Sound ls (assign_by_name l s) (elim (by_name_cases l s) [
        | inl e ↦ rw e i
        | inr (p, _, named, e) ↦ rw e (record {
          assigned = λ u q h. ground (
            arith,
            get-put l.meta.uid u p s.assigned,
            i.assigned u q,
            i.offered (key_of l.meta) p,
          );
          offered =
              λ k q h. ground (arith, get-remove (key_of l.meta) k s.port_by_name, i.offered k q);
        })
      ])

  rest-source :
      (ls : List Link) (ps : List ℤ) (m : Map String ℤ) (u : String) (p : ℤ)
      → get u (assign_rest ls ps m) ≡ some p
      → (get u m ≡ some p) ⊎ (contains ps p ≡ true)
  unfolding assign_rest contains
  rest-source [] ps m u p h = inl h
  rest-source (l ∷ ls) [] m u p h = elim (Bool-cases (is_some (get l.meta.uid m))) [
    | inl skip ↦ rest-source ls [] m u p (rw skip at h)
    | inr stop ↦ inl (rw stop at h)
  ]
  rest-source (l ∷ ls) (q ∷ ps) m u p h = elim (Bool-cases (is_some (get l.meta.uid m))) [
    | inl skip ↦ rest-source ls (q ∷ ps) m u p (rw skip at h)
    | inr take ↦ elim (rest-source ls ps (put l.meta.uid q m) u p (rw take at h)) [
      | inr later ↦ inr (ground arith)
      | inl now ↦ elim (Bool-cases (eqz q p)) [
        | inl same ↦ inr (ground arith)
        | inr differ ↦ inl (ground (arith, get-put l.meta.uid u q m, eqz_iff q p))
      ]
    ]
  ]

  pub assigned_ports-source :
      (links : List Link) (u : String) (p : ℤ)
      → get u (assigned_ports links available) ≡ some p
      → contains (ports_of available) p ≡ true
  unfolding assigned_ports get
  assigned_ports-source links u p h =
      elim (rest-source links (sort_by ltz (remaining_ports named.used available)) named.assigned u
        p h) [
          | inl e ↦ i.assigned u p e
          | inr e ↦ ground (
            arith,
            contains-sort_by ltz p (remaining_ports named.used available),
            contains-remaining named.used available p,
          )
        ]
    where
      named : Assignment
      named = assign_all_by_name links (indexed available)

      i : Sound named
      i = all_by_name-Sound links (indexed available) (record {
        assigned = λ u p h. absurd (cc);
        offered =
            λ k p h. elim (index_sound [] available [] k p h) [ inl e ↦ absurd (cc) | inr e ↦ e ];
      })

-- assignPortsToLinks gives a link only a positive port that is allocated to one of the machine
-- ports.
pub assign_ports_to_links-source :
    (links : List Link) (ms : List MachinePort) (allocated : Map String ℤ) (u : String) (p : ℤ)
    → get u (assign_ports_to_links links ms allocated).0 ≡ some p
    → (v : String) × (contains (uids_of ms) v ≡ true) × (get v allocated ≡ some p) × (pos 0 <ℤ p)
unfolding assign_ports_to_links get
assign_ports_to_links-source [] ms allocated u p h = absurd (cc)
assign_ports_to_links-source (l ∷ ls) ms allocated u p h =
    available-source ms allocated p (nonempty-source (ordered_available ms allocated) refl)
  where
    nonempty-source :
        (available : List MachinePortAllocation)
        → ordered_available ms allocated ≡ available
        → contains (ports_of (ordered_available ms allocated)) p ≡ true
    nonempty-source [] e = ground arith
    nonempty-source (a ∷ rest) e =
        rw e (assigned_ports-source (a ∷ rest) (l ∷ ls) u p (ground arith))

-- Where the machine ports have different UIDs and different allocated ports, assignPortsToLinks
-- never gives two links one port.
pub assign_ports_to_links-Injective :
    (links : List Link) (ms : List MachinePort) (allocated : Map String ℤ)
    → Apart (uids_of ms)
    → ((u v : String) (p : ℤ) → get u allocated ≡ some p → get v allocated ≡ some p → u ≡ v)
    → (u v : String) (p : ℤ) → get u (assign_ports_to_links links ms allocated).0 ≡ some p
    → get v (assign_ports_to_links links ms allocated).0 ≡ some p
    → u ≡ v
unfolding assign_ports_to_links get
assign_ports_to_links-Injective [] ms allocated apart inj u v p h h' = absurd (cc)
assign_ports_to_links-Injective (l ∷ ls) ms allocated apart inj u v p h h' =
    go (ordered_available ms allocated) refl
  where
    go :
        (available : List MachinePortAllocation)
        → ordered_available ms allocated ≡ available
        → u ≡ v
    go [] e = absurd (ground arith)
    go (a ∷ rest) e =
        assigned_ports-Injective (l ∷ ls) (a ∷ rest)
          (subst (λ x. Apart (ports_of x)) e (available-Apart ms allocated apart inj)) u v p
          (ground arith) (ground arith)
