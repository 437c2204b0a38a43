-- ===== src/Proxy/Ports.antt =====
-- The port that `AllocatePort` (internal/core/proxy/ports.go) finds.
use hoster.Prelude.{
  ℕ, zero, suc, ◌+◌, ◌-◌, ◌≤◌, ◌<◌, ◌≡◌, ◌≢◌, refl, true, false, List, arith, ◌==◌, Result, ok, err,
  Bool-cases, inl, inr, leb, ◌⊎◌,
}
use hoster.Prelude.Int.{ℤ, pos, negsuc}
use hoster.Proxy.{
  max_int, Error, no_ports_available, PortRange, is_used, allocate_from, allocate_port,
  validate_port,
}

-- The port is the least that no one uses, from a port on.
abbrev pub IsFirstFree : List ℕ → ℕ → ℕ → Type 0
IsFirstFree used from p =
    (is_used used p ≡ false) × ((q : ℕ) → from ≤ q → q < p → is_used used q ≡ true)

found :
    (fuel : ℕ) (used : List ℕ) (end port p : ℕ)
    → end < max_int
    → allocate_from fuel used end port ≡ ok (pos p)
    → (port ≤ p) × (p ≤ end) × IsFirstFree used port p
unfolding allocate_from
found zero used end port p m h = ground arith
found (suc fuel) used end port p m h = elim (Bool-cases (leb port end)) [
  | inr e ↦ ground arith
  | inl e ↦ elim (Bool-cases (is_used used port)) [
    | inr u ↦
        let same : port ≡ p = ground arith in
        rw (← same) (omega arith, ground arith, (u, λ q a b. absurd (omega arith)))
    | inl u ↦
        let (low, high, (free, below)) = found fuel used end (suc port) p m (ground arith) in
        (omega arith, high, (free, λ q a b. below_suc u below q a b))
  ]
]
  where
    below_suc :
        is_used used port ≡ true
        → ((q : ℕ) → suc port ≤ q → q < p → is_used used q ≡ true)
        → (q : ℕ) → port ≤ q
        → q < p
        → is_used used q ≡ true
    below_suc u f q a b = elim (Bool-cases (q == port)) [
      | inl e ↦ let same : q ≡ port = ground arith in rw same u
      | inr e ↦ f q (ground arith) b
    ]

refused :
    (fuel : ℕ) (used : List ℕ) (end port : ℕ) (e : Error)
    → end < max_int
    → suc end ≤ port + fuel
    → allocate_from fuel used end port ≡ err e
    → (q : ℕ) → port ≤ q
    → q ≤ end
    → is_used used q ≡ true
unfolding allocate_from
refused zero used end port e m f h q a b = absurd (omega arith)
refused (suc fuel) used end port e m f h q a b = elim (Bool-cases (is_used used port)) [
  | inr u ↦ ground arith
  | inl u ↦ elim (Bool-cases (q == port)) [
    | inl same ↦ let p : q ≡ port = ground arith in rw p u
    | inr other ↦
        refused fuel used end (suc port) e m (omega arith) (ground arith) q (ground arith) b
  ]
]

-- No port before the end wraps around.
not_negative :
    (fuel : ℕ) (used : List ℕ) (end port n : ℕ)
    → end < max_int
    → allocate_from fuel used end port ≢ ok (negsuc n)
unfolding allocate_from
not_negative zero used end port n m h = cc
not_negative (suc fuel) used end port n m h =
    ground (arith, not_negative fuel used end (suc port) n m)

Result-cases :
    (r : Result Error ℤ)
    → ((p : ℕ) × (r ≡ ok (pos p))) ⊎ ((n : ℕ) × (r ≡ ok (negsuc n))) ⊎ ((e : Error) × (r ≡ err e))
Result-cases (ok (pos p)) = inl (p, refl)
Result-cases (ok (negsuc n)) = inr (inl (n, refl))
Result-cases (err e) = inr (inr (e, refl))

-- `AllocatePort` answers the least port of the range that no one uses, which `ValidatePort` accepts; it
-- fails exactly if every port of the range is used; for a range of ints that are not negative and end
-- before the largest one.
pub allocate_port_cases :
    (used : List ℕ) (range : PortRange)
    → range.end < max_int
    → ((p : ℕ) × (allocate_port used range ≡ ok (pos p))
        × (validate_port p range ≡ true)
        × IsFirstFree used range.start p)
      ⊎ ((allocate_port used range ≡ err no_ports_available)
          × ((q : ℕ) → validate_port q range ≡ true → is_used used q ≡ true))
unfolding allocate_port validate_port
allocate_port_cases used range m = elim (Result-cases (allocate_port used range)) [
  | inl (p, e) ↦
      let (low, high, free) = found _ used range.end range.start p m e in
      inl (p, e, ground arith, free)
  | inr (inl (n, e)) ↦ absurd (not_negative _ used range.end range.start n m e)
  | inr (inr (no_ports_available, e)) ↦ inr (
    e,
    λ q v.
        refused (suc range.end - range.start) used range.end range.start no_ports_available m
          (omega arith) e q (ground arith) (ground arith),
  )
]
