-- ===== src/Compose/Parser/Converted.antt =====
-- What convertService of internal/core/compose/parser.go makes of a service of compose-go.
use hoster.Prelude.{
  ◌≡◌, ◌≢◌, ◌↔◌, refl, ap, ◌⊎◌, inl, inr, subst, String, true, false, Option, none, some, List, [],
  ◌∷◌, ◌&&◌, ◌||◌, str_eq, str_eq_iff, if◌then◌else◌, ok, In, arith, Bool-cases, map,
}
use hoster.Prelude.Dict.{Dict}
use hoster.Prelude.Int.{ℤ, pos, wrap64}
use hoster.Prelude.Text.{Text}
use hoster.Compose.{Service, Port, VolumeMount, bind, volume, tmpfs, HealthCheck, BuildConfig}
use hoster.Compose.Parser.Published.{IsPublished, published_port-IsPublished}
use hoster.Compose.Loaded.{
  LoadedPort, LoadedVolume, LoadedHealthCheck, LoadedService, Amounts, convert_port,
  convert_environment, has_prefix, mount_type, convert_mount, int_or_zero, or_empty,
  convert_health_check, cpus_of, memory_of, made_service, is_none, convert_service,
}

-- Two lists of one length, related place by place.
abbrev pub Pairs : {A B : Type 0} → (A → B → Type 0) → List A → List B → Type 0
Pairs R [] [] = Unit
Pairs R (a ∷ xs) (b ∷ ys) = R a b × Pairs R xs ys
Pairs R _ _ = ⊥

Pairs-map :
    {A B : Type 0} (R : A → B → Type 0) (f : A → B)
    → ((a : A) → R a (f a))
    → (xs : List A) → Pairs R xs (map f xs)
Pairs-map R f h [] = tt
Pairs-map R f h (a ∷ xs) = (h a, Pairs-map R f h xs)

abbrev pub IsPort : LoadedPort → Port → Type 0
IsPort l p =
    (p.target ≡ l.target)
    × (p.protocol ≡ l.protocol)
    × (p.host_ip ≡ l.host_ip)
    × IsPublished l.published p.published

-- A type that has no constant is told by the source.
abbrev pub IsMount : LoadedVolume → VolumeMount → Type 0
IsMount l m =
    (m.source ≡ l.source)
    × (m.target ≡ l.target)
    × (m.read_only ≡ l.read_only)
    × (l.type ≡ "bind" → m.type ≡ bind)
    × (l.type ≡ "volume" → m.type ≡ volume)
    × (l.type ≡ "tmpfs" → m.type ≡ tmpfs)
    × (l.type ≢ "bind"
        → l.type ≢ "volume"
        → l.type ≢ "tmpfs"
        → m.type ≡ (
            if has_prefix "./" l.source || (has_prefix "/" l.source || has_prefix "~" l.source)
            then bind
            else volume))

-- The value of an option, or a default.
abbrev pub IsOr : {A B : Type 0} → (A → B) → B → Option A → B → Type 0
IsOr {A} f d o x = (o ≡ none → x ≡ d) × ((a : A) → o ≡ some a → x ≡ f a)

IsOr-mk :
    {A B : Type 0} (f : A → B) (d : B) (g : Option A → B)
    → g none ≡ d
    → ((a : A) → g (some a) ≡ f a)
    → (o : Option A) → IsOr f d o (g o)
IsOr-mk f d g e h none = (λ q. e, λ a q. cc)
IsOr-mk f d g e h (some b) =
    (λ q. cc, λ a q. let same : b ≡ a = cc in subst (λ w. g (some b) ≡ f w) same (h b))

abbrev pub IsCheck : LoadedHealthCheck → HealthCheck → Type 0
IsCheck l c =
    (c.test ≡ l.test)
    × IsOr (λ n. wrap64 (pos n)) (pos 0) l.retries c.retries
    × IsOr (λ t. t) [] l.interval c.interval
    × IsOr (λ t. t) [] l.timeout c.timeout
    × IsOr (λ t. t) [] l.start_period c.start_period

-- None, also if the check is disabled.
abbrev pub HasCheck : Option LoadedHealthCheck → Option HealthCheck → Type 0
HasCheck none o = o ≡ none
HasCheck (some l) o =
    (l.disable ≡ true → o ≡ none)
    × (l.disable ≡ false → (c : HealthCheck) × (o ≡ some c) × IsCheck l c)

convert_health_check-HasCheck : (o : Option LoadedHealthCheck) → HasCheck o (convert_health_check o)
convert_health_check-HasCheck none = refl
convert_health_check-HasCheck (some l) = elim (Bool-cases l.disable) [
  | inl e ↦ rw e (λ d. refl, λ d. cc)
  | inr e ↦ rw e (
    λ d. cc,
    λ d. (
      _,
      refl,
      (
        refl,
        IsOr-mk _ _ int_or_zero refl (λ n. refl) l.retries,
        IsOr-mk _ _ or_empty refl (λ t. refl) l.interval,
        IsOr-mk _ _ or_empty refl (λ t. refl) l.timeout,
        IsOr-mk _ _ or_empty refl (λ t. refl) l.start_period,
      ),
    ),
  )
]

image_or_build :
    (image : String) (build : Option BuildConfig)
    → (str_eq image "" && is_none build) ≡ false
    → (image ≢ "") ⊎ ((b : BuildConfig) × (build ≡ some b))
image_or_build image none e = inl (λ q. ground (arith, str_eq_iff image ""))
image_or_build image (some b) e = inr (b, refl)

differs : {a b : String} → a ≢ b → str_eq a b ≡ false
differs {a} {b} n = ground (arith, str_eq_iff a b)

module _ {F : Type 0} (nought : F) where
  abbrev pub HasAmounts : Option (Amounts F) → F → ℤ → Type 0
  HasAmounts o cpu memory =
      IsOr (λ a. a.cpus) nought o cpu × IsOr (λ a. a.memory_bytes) (pos 0) o memory

  -- The service that is made, field by field; the environment holds exactly the entries with a value.
  abbrev pub IsConverted : LoadedService F → Service F → Type 0
  IsConverted l s =
      (s.name ≡ l.name)
      × (s.image ≡ l.image)
      × (s.build ≡ l.build)
      × (s.command ≡ l.command)
      × (s.entrypoint ≡ l.entrypoint)
      × (s.networks ≡ l.networks)
      × (s.depends_on ≡ l.depends_on)
      × (s.restart ≡ l.restart)
      × (s.labels ≡ l.labels)
      × Pairs IsPort l.ports s.ports
      × Pairs IsMount l.volumes s.volumes
      × ((k : String) (v : Text) → In (k, v) s.environment ↔ In (k, some v) l.environment)
      × HasCheck l.health_check s.health_check
      × HasAmounts l.limits s.resources.cpu_limit s.resources.memory_limit
      × HasAmounts l.reservations s.resources.cpu_reservation s.resources.memory_reservation

  convert_mount-IsMount : (l : LoadedVolume) → IsMount l (convert_mount l)
  unfolding mount_type
  convert_mount-IsMount l = (
    refl,
    refl,
    refl,
    λ e. rw e refl,
    λ e. rw e refl,
    λ e. rw e refl,
    λ b v t. rw (differs b, differs v) (rw (differs t) refl),
  )

  convert_environment-In :
      (env : Dict (Option Text)) (k : String) (v : Text)
      → In (k, v) (convert_environment env) ↔ In (k, some v) env
  unfolding convert_environment
  convert_environment-In [] k v = (λ h. elim h [ ], λ h. elim h [ ])
  convert_environment-In ((j, none) ∷ env) k v = (
    λ h. inr ((convert_environment-In env k v).0 h),
    λ h. elim h [
      | inl q ↦ let no : none ≡ some v = ap (λ x. x.1) q in cc
      | inr m ↦ (convert_environment-In env k v).1 m
    ],
  )
  convert_environment-In ((j, some w) ∷ env) k v = (
    λ h. elim h [
      | inl q ↦ inl (ap (λ x. (x.0, some x.1)) q)
      | inr m ↦ inr ((convert_environment-In env k v).0 m)
    ],
    λ h. elim h [
      | inl q ↦
          let key : j ≡ k = ap (λ x. x.0) q in
          let whole : some w ≡ some v = ap (λ x. x.1) q in
          let value : w ≡ v = cc in inl (λ i. (key i, value i))
      | inr m ↦ inr ((convert_environment-In env k v).1 m)
    ],
  )

  made_service-IsConverted : (l : LoadedService F) → IsConverted l (made_service nought l)
  made_service-IsConverted l = (
    refl,
    refl,
    refl,
    refl,
    refl,
    refl,
    refl,
    refl,
    refl,
    Pairs-map IsPort convert_port (λ p. (refl, refl, refl, published_port-IsPublished p.published))
        l.ports,
    Pairs-map IsMount convert_mount convert_mount-IsMount l.volumes,
    convert_environment-In l.environment,
    convert_health_check-HasCheck l.health_check,
    (
      IsOr-mk _ nought (cpus_of nought) refl (λ a. refl) l.limits,
      IsOr-mk _ (pos 0) memory_of refl (λ a. refl) l.limits,
    ),
    (
      IsOr-mk _ nought (cpus_of nought) refl (λ a. refl) l.reservations,
      IsOr-mk _ (pos 0) memory_of refl (λ a. refl) l.reservations,
    ),
  )

  abbrev pub IsGood : LoadedService F → Service F → Type 0
  IsGood l s = IsConverted l s × ((s.image ≢ "") ⊎ ((b : BuildConfig) × (s.build ≡ some b)))

  -- A service that convertService accepts has an image or a build, and is the loaded one.
  pub convert_service-IsConverted :
      (l : LoadedService F) (s : Service F) → convert_service nought l ≡ ok s → IsGood l s
  unfolding convert_service
  convert_service-IsConverted l s = elim (Bool-cases (str_eq l.image "" && is_none l.build)) [
    | inl e ↦ rw (e, convert_service) (λ h. cc)
    | inr e ↦
        rw (e, convert_service)
          (λ h.
            let same : made_service nought l ≡ s = cc in
            subst (λ r. IsGood l r) same
              (made_service-IsConverted l, image_or_build l.image l.build e))
  ]
