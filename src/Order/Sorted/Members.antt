-- ===== src/Order/Sorted/Members.antt =====
-- The services of a list and their names (internal/core/deployment/ordering.go).
use hoster.Prelude.{
  All-In, ◌≡◌, refl, String, true, some, List, [], ◌∷◌, str_eq, str_eq_iff, str_eq_refl, mem, arith,
  Bool-cases, inl, inr, ◌↔◌, subst, All, In,
}
use hoster.Compose.{Service}
use hoster.Order.{names}
use hoster.Order.Relax.{Distinct}
use hoster.Order.Build.{service_of}
use hoster.Order.Sorted.{IsFound}

module _ {F : Type 0} where
  In-names :
      (s : Service F) (services : List (Service F))
      → In s services
      → mem s.name (names services) ≡ true
  In-names s [] m = elim m [ ]
  In-names s (t ∷ services) (inl p) = rw p (rw (str_eq_refl s.name))
  In-names s (t ∷ services) (inr m) = ground (arith, In-names s services m)

  service_of_In :
      (s : Service F) (services : List (Service F))
      → Distinct (names services)
      → In s services
      → IsFound services s
  service_of_In s [] h m = elim m [ ]
  service_of_In s (t ∷ services) h (inl p) = rw p (rw (str_eq_refl s.name))
  service_of_In s (t ∷ services) (new, h) (inr m) =
      ground (arith, service_of_In s services h m, In-names s services m, str_eq_iff t.name s.name)

  In-of_service :
      (x : String) (s : Service F) (services : List (Service F))
      → service_of services x ≡ some s
      → In s services
  In-of_service x s [] h = cc
  In-of_service x s (t ∷ services) h = ground (arith, In-of_service x s services)

  In-of_name :
      (x : String) (r : List (Service F))
      → mem x (names r) ≡ true
      → (t : Service F) × In t r × (t.name ≡ x)
  In-of_name x [] h = cc
  In-of_name x (t ∷ r) h = elim (Bool-cases (str_eq t.name x)) [
    | inl e ↦ (t, inl refl, (str_eq_iff t.name x).0 e)
    | inr e ↦ let (u, m, p) = In-of_name x r (ground arith) in (u, inr m, p)
  ]

  pub All-IsFound :
      (services part : List (Service F))
      → Distinct (names services)
      → ((s : Service F) → In s part → In s services)
      → All (IsFound services) part
  All-IsFound services [] h f = tt
  All-IsFound services (s ∷ part) h f = (
    service_of_In s services h (f s (inl refl)),
    All-IsFound services part h (λ t m. f t (inr m)),
  )

  -- Services that are all found in the list and whose names are all of its names are its services.
  pub same_services :
      (services r : List (Service F))
      → Distinct (names services)
      → All (IsFound services) r
      → ((x : String) → mem x (names services) ≡ true → mem x (names r) ≡ true)
      → (s : Service F) → In s r ↔ In s services
  same_services services r h found complete s = (
    λ m. In-of_service s.name s services (All-In (IsFound services) s r found m),
    λ m.
        let (t, there, named) = In-of_name s.name r (complete s.name (In-names s services m)) in
        let same : service_of services s.name ≡ some t =
          subst (λ x. service_of services x ≡ some t) named
            (All-In (IsFound services) t r found there) in
        let p : t ≡ s = cc (same, service_of_In s services h m) in subst (λ u. In u r) p there,
  )
