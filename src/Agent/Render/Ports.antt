-- ===== src/Agent/Render/Ports.antt =====
-- inferPortRange and the links' ports.
use tiproxy_machine_operator.Agent.Render.{infer_all, infer_port_range, widen}
use tiproxy_machine_operator.Api.{ResolvedLinkStatus}
use tiproxy_machine_operator.Prelude.{
  All, Bool-cases, List, [], arith, eqz_iff, false, inl, inr, lez, pos, true, ℤ, ◌<ℤ◌, ◌∷◌, ◌≡◌,
  ◌≤ℤ◌, ◌⊎◌,
}

-- A range that covers a port.
abbrev pub Covers : ℤ × ℤ → ℤ → Type 0
Covers (start, end) p = (pos 0 <ℤ start) × (start ≤ℤ p) × (p ≤ℤ end)

widen-start : (p start end : ℤ) → pos 0 ≤ℤ start → pos 0 ≤ℤ (widen p (start, end)).0
unfolding widen
widen-start p start end b = elim (Bool-cases (lez p (pos 0))) [
  | inl skip ↦ rw skip b
  | inr positive ↦ rw positive (ground arith)
]

widen-Covers : (p q start end : ℤ) → Covers (start, end) p → Covers (widen q (start, end)) p
unfolding widen
widen-Covers p q start end c = elim (Bool-cases (lez q (pos 0))) [
  | inl skip ↦ rw skip c
  | inr positive ↦ rw positive (
    ground (arith, eqz_iff start (pos 0)),
    ground (arith, eqz_iff start (pos 0)),
    ground (arith, eqz_iff end (pos 0)),
  )
]

widen_own :
    (p start end : ℤ) → lez p (pos 0) ≡ false → pos 0 ≤ℤ start → Covers (widen p (start, end)) p
unfolding widen
widen_own p start end positive b = rw positive (
  ground (arith, eqz_iff start (pos 0)),
  ground (arith, eqz_iff start (pos 0)),
  ground (arith, eqz_iff end (pos 0)),
)

infer_all-Covers :
    (ls : List ResolvedLinkStatus) (p : ℤ) (range : ℤ × ℤ)
    → Covers range p
    → Covers (infer_all ls range) p
unfolding infer_all
infer_all-Covers [] p range c = c
infer_all-Covers (l ∷ ls) p range c =
    infer_all-Covers ls p (widen l.port range) (widen-Covers p l.port range.0 range.1 c)

infer_all_each :
    (ls : List ResolvedLinkStatus) (range : ℤ × ℤ)
    → pos 0 ≤ℤ range.0
    → All (λ l. (lez l.port (pos 0) ≡ true) ⊎ Covers (infer_all ls range) l.port) ls
unfolding infer_all
infer_all_each [] range b = tt
infer_all_each (l ∷ ls) range b = (
  elim (Bool-cases (lez l.port (pos 0))) [
    | inl skip ↦ inl skip
    | inr positive ↦ inr (
        infer_all-Covers ls l.port (widen l.port range)
          (widen_own l.port range.0 range.1 positive b))
  ],
  infer_all_each ls (widen l.port range) (widen-start l.port range.0 range.1 b),
)

-- The range that inferPortRange returns starts above 0 and covers the port of each link that has a
-- positive one.
pub infer_port_range-Covers :
    (links : List ResolvedLinkStatus)
    → All (λ l. (lez l.port (pos 0) ≡ true) ⊎ Covers (infer_port_range links) l.port) links
unfolding infer_port_range
infer_port_range-Covers links = infer_all_each links (pos 0, pos 0) (omega arith)
