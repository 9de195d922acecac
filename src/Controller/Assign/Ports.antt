-- ===== src/Controller/Assign/Ports.antt =====
-- Which ports the links get: each an allocated one, and no two links the same.
use text.Mathlib.TextEquality.{eq_iff}
use tiproxy_machine_operator.Api.{Link}
use tiproxy_machine_operator.Controller.Assign.{
  Assignment, MachinePortAllocation, assign_all_by_name, assign_by_name, assign_rest,
  assigned_ports, index_by_name, key_of, remaining_ports,
}
use tiproxy_machine_operator.Prelude.{
  Bool-cases, List, Option-cases, String, [], arith, eqz, eqz_iff, false, if◌then◌else◌, inl, inr,
  int_eq, is_some, ltz, map, none, not, refl, some, sort_by, string_eq, true, ℤ, ◌&&◌, ◌||◌, ◌∷◌,
  ◌≡◌, ◌≢◌, ◌⊎◌,
}
use tiproxy_machine_operator.Prelude.Assoc.{Map, contains, get, get-put, get-remove, put, remove}
use tiproxy_machine_operator.Prelude.Sets.{Apart, Apart-sort_by, contains-sort_by}

abbrev pub ports_of : List MachinePortAllocation → List ℤ
ports_of = map (λ a. a.port)

abbrev Injective : Map String ℤ → Type 0
Injective m = (j k : String) (p : ℤ) → get j m ≡ some p → get k m ≡ some p → j ≡ k

-- A new value for a key leaves a map one to one.
put-Injective :
    (k : String) (p : ℤ) (m : Map String ℤ)
    → ((j : String) → get j m ≢ some p)
    → Injective m
    → Injective (put k p m)
put-Injective k p m fresh inj i j q h h' =
    ground
      (arith, get-put k i p m, get-put k j p m, inj i j q, fresh i, fresh j, eq_iff k i, eq_iff k j)

index-Injective :
    (used : List ℤ) (available : List MachinePortAllocation) (m : Map String ℤ)
    → Apart (ports_of available)
    → ((k : String) (p : ℤ) → get k m ≡ some p → contains (ports_of available) p ≡ false)
    → Injective m
    → Injective (index_by_name used available m)
unfolding index_by_name contains
index-Injective used [] m apart fresh inj = inj
index-Injective used (a ∷ rest) m apart fresh inj =
    elim (Bool-cases (contains used a.port || is_some (get a.key m))) [
      | inl skip ↦
          rw skip (index-Injective used rest m apart.1 (λ k p h. ground (arith, fresh k p)) inj)
      | inr take ↦ rw take (
          index-Injective used rest (put a.key a.port m) apart.1
            (λ k p h. ground (arith, fresh k p, get-put a.key k a.port m))
            (put-Injective a.key a.port m
              (λ j h. ground (arith, fresh j a.port, eqz_iff a.port a.port)) inj))
    ]

-- The index holds allocated ports only.
pub index_sound :
    (used : List ℤ) (available : List MachinePortAllocation) (m : Map String ℤ) (k : String) (p : ℤ)
    → get k (index_by_name used available m) ≡ some p
    → (get k m ≡ some p) ⊎ (contains (ports_of available) p ≡ true)
unfolding index_by_name contains
index_sound used [] m k p h = inl h
index_sound used (a ∷ rest) m k p h =
    elim (index_sound used rest
      (if contains used a.port || is_some (get a.key m) then m else put a.key a.port m) k p h) [
        | inr later ↦ inr (ground arith)
        | inl now ↦ elim (Bool-cases (eqz a.port p)) [
          | inl same ↦ inr (ground arith)
          | inr differ ↦ inl (ground (arith, get-put a.key k a.port m, eqz_iff a.port p))
        ]
      ]

-- What every round keeps.
record Inv (s : Assignment) : Type 0 where
  injective : Injective s.assigned
  recorded : (u : String) (p : ℤ) → get u s.assigned ≡ some p → contains s.used p ≡ true
  offered : (k : String) (p : ℤ) → get k s.port_by_name ≡ some p → contains s.used p ≡ false
  index_injective : Injective s.port_by_name

-- A round that takes a port.
take-Inv :
    (u k : String) (p : ℤ) (s : Assignment)
    → get k s.port_by_name ≡ some p
    → Inv s
    → Inv (record {
      assigned = put u p s.assigned;
      used = p ∷ s.used;
      port_by_name = remove k s.port_by_name;
    })
unfolding contains
take-Inv u k p s named i = record {
  injective =
      put-Injective u p s.assigned (λ j h. ground (arith, i.recorded j p, i.offered k p))
        i.injective;
  recorded = λ v q h. ground (arith, get-put u v p s.assigned, i.recorded v q, eqz_iff p q);
  offered = λ j q h. ground (
    arith,
    get-remove k j s.port_by_name,
    i.offered j q,
    i.index_injective k j q,
    eqz_iff p q,
    eq_iff k j,
  );
  index_injective = λ j j' q h h'. ground (
    arith,
    get-remove k j s.port_by_name,
    get-remove k j' s.port_by_name,
    i.index_injective j j' q,
  );
}

pub by_name_cases :
    (l : Link) (s : Assignment)
    → (assign_by_name l s ≡ s)
      ⊎ ((p : ℤ) × (get l.meta.uid s.assigned ≡ none)
          × (get (key_of l.meta) s.port_by_name ≡ some p)
          × (assign_by_name l s ≡ record {
            assigned = put l.meta.uid p s.assigned;
            used = p ∷ s.used;
            port_by_name = remove (key_of l.meta) s.port_by_name;
          }))
unfolding assign_by_name
by_name_cases l s = elim (Option-cases (get l.meta.uid s.assigned)) [
  | inr (q, e) ↦ inl (rw e refl)
  | inl e ↦ elim (Option-cases (get (key_of l.meta) s.port_by_name)) [
    | inl e' ↦ inl (ground arith)
    | inr (p, e') ↦ inr (p, e, e', ground arith)
  ]
]

all_by_name-Inv : (ls : List Link) (s : Assignment) → Inv s → Inv (assign_all_by_name ls s)
unfolding assign_all_by_name
all_by_name-Inv [] s i = i
all_by_name-Inv (l ∷ ls) s i = all_by_name-Inv ls (assign_by_name l s) (elim (by_name_cases l s) [
  | inl e ↦ rw e i
  | inr (p, _, named, e) ↦ rw e (take-Inv l.meta.uid (key_of l.meta) p s named i)
])

pub contains-remaining :
    (used : List ℤ) (available : List MachinePortAllocation) (p : ℤ)
    → contains (remaining_ports used available) p
      ≡ (contains (ports_of available) p && not (contains used p))
unfolding remaining_ports contains
contains-remaining used [] p = refl
contains-remaining used (a ∷ rest) p =
    ground (arith, contains-remaining used rest p, eqz_iff a.port p)

remaining-Apart :
    (used : List ℤ) (available : List MachinePortAllocation)
    → Apart (ports_of available)
    → Apart (remaining_ports used available)
unfolding remaining_ports
remaining-Apart used [] a = tt
remaining-Apart used (x ∷ rest) a =
    ground (arith, remaining-Apart used rest a.1, contains-remaining used rest x.port)

rest-Injective :
    (ls : List Link) (ps : List ℤ) (m : Map String ℤ)
    → Apart ps
    → ((u : String) (p : ℤ) → get u m ≡ some p → contains ps p ≡ false)
    → Injective m
    → Injective (assign_rest ls ps m)
unfolding assign_rest contains
rest-Injective [] ps m apart fresh inj = inj
rest-Injective (l ∷ ls) [] m apart fresh inj = elim (Bool-cases (is_some (get l.meta.uid m))) [
  | inl skip ↦ rw skip (rest-Injective ls [] m apart fresh inj)
  | inr stop ↦ rw stop inj
]
rest-Injective (l ∷ ls) (p ∷ ps) m apart fresh inj =
    elim (Bool-cases (is_some (get l.meta.uid m))) [
      | inl skip ↦ rw skip (rest-Injective ls (p ∷ ps) m apart fresh inj)
      | inr take ↦ rw take (
          rest-Injective ls ps (put l.meta.uid p m) apart.1
            (λ u q h. ground (arith, get-put l.meta.uid u p m, fresh u q))
            (put-Injective l.meta.uid p m (λ j h. ground (arith, fresh j p, eqz_iff p p)) inj))
    ]

-- The start of the third loop.
abbrev pub indexed : List MachinePortAllocation → Assignment
indexed available = record {
  assigned = [];
  used = [];
  port_by_name = index_by_name [] available [];
}

indexed-Inv :
    (available : List MachinePortAllocation) → Apart (ports_of available) → Inv (indexed available)
unfolding get contains
indexed-Inv available apart = record {
  injective = λ j k p h h'. cc;
  recorded = λ u p h. cc;
  offered = λ k p h. refl;
  index_injective =
      index-Injective [] available [] apart (λ k p h. absurd (cc)) (λ j k p h h'. absurd (cc));
}

pub assigned_ports-Injective :
    (links : List Link) (available : List MachinePortAllocation)
    → Apart (ports_of available)
    → (u v : String) (p : ℤ) → get u (assigned_ports links available) ≡ some p
    → get v (assigned_ports links available) ≡ some p
    → u ≡ v
unfolding assigned_ports
assigned_ports-Injective links available apart =
    rest-Injective links (sort_by ltz (remaining_ports named.used available)) named.assigned
      (Apart-sort_by ltz (remaining_ports named.used available)
        (remaining-Apart named.used available apart))
      (λ u p h. ground (
        arith,
        contains-sort_by ltz p (remaining_ports named.used available),
        contains-remaining named.used available p,
        i.recorded u p,
      ))
      i.injective
  where
    named : Assignment
    named = assign_all_by_name links (indexed available)

    i : Inv named
    i = all_by_name-Inv links (indexed available) (indexed-Inv available apart)
