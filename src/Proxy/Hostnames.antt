-- ===== src/Proxy/Hostnames.antt =====
-- The names of deployments: `Parse` (internal/core/proxy/resolver.go) reads what `GenerateDomain`
-- (internal/core/domain/deployment.go) writes.
use hoster.Prelude.{
  ◌≡◌, ◌≢◌, refl, ◌∙◌, ap, ◌⊎◌, Bool, true, none, some, [], ◌∷◌, ◌++◌, ◌&&◌, not, all, arith, ◌==◌,
  Bool-cases, Option-cases, inl, inr, All,
}
use mathlib.Core.List.{append_assoc}
use hoster.Prelude.Text.{
  Text, codes, is_digit, strip_suffix, strip_suffix_sound, strip_suffix-append,
}
use hoster.Deployment.Create.{generate_domain}
use hoster.Template.Slug.{slugify, slugify_safe, is_label_char}
use hoster.Proxy.{last_colon, is_port, without_port, not_empty, parse}

-- The text holds no colon.
abbrev pub has_no_colon : Text → Bool
has_no_colon s = all (λ c. not (c == b':')) s

last_colon-none : (s : Text) → has_no_colon s ≡ true → last_colon s ≡ none
unfolding last_colon
last_colon-none [] h = refl
last_colon-none (c ∷ s) h = rw (last_colon-none s (ground arith)) (ground arith)

last_colon-append :
    (before after : Text)
    → has_no_colon after ≡ true
    → last_colon (before ++ b':' ∷ after) ≡ some (before, after)
unfolding last_colon
last_colon-append [] after h = rw (last_colon-none after h) refl
last_colon-append (c ∷ before) after h = rw (last_colon-append before after h) refl

last_colon_sound :
    (s before after : Text) → last_colon s ≡ some (before, after) → s ≡ before ++ b':' ∷ after
unfolding last_colon
last_colon_sound [] before after h = cc
last_colon_sound (c ∷ s) before after h = elim (Option-cases (last_colon s)) [
  | inl e ↦ ground arith
  | inr ((b, a), e) ↦ let rest = last_colon_sound s b a e in ground arith
]

digits_no_colon : (s : Text) → all is_digit s ≡ true → has_no_colon s ≡ true
digits_no_colon [] h = refl
digits_no_colon (c ∷ s) h = ground (arith, digits_no_colon s)

-- The host of a request with a port.
abbrev pub with_port : Text → Text → Text
with_port host port = host ++ b':' ∷ port

-- A dot and the base domain.
abbrev pub suffix : Text → Text
suffix base = codes "." ++ base

parse_host :
    (base slug hostname : Text)
    → slug ≢ []
    → hostname ≢ []
    → without_port hostname (last_colon hostname) ≡ slug ++ suffix base
    → parse base hostname ≡ some slug
unfolding parse
parse_host base [] hostname n m h = absurd (n refl)
parse_host base (c ∷ slug) [] n m h = absurd (m refl)
parse_host base (c ∷ slug) (d ∷ hostname) n m h =
    rw (h, strip_suffix-append (suffix base) (c ∷ slug)) refl

append-not_empty : (s t : Text) → s ≢ [] → s ++ t ≢ []
append-not_empty [] t h = absurd (h refl)
append-not_empty (c ∷ s) t h = λ e. cc

-- `Parse` gives the slug back that was put before the base domain, and any port after it makes no
-- difference.
pub parse_round_trip :
    (base slug port : Text)
    → slug ≢ []
    → has_no_colon (slug ++ suffix base) ≡ true
    → is_port port ≡ true
    → (parse base (slug ++ suffix base) ≡ some slug)
      × (parse base (with_port (slug ++ suffix base) port) ≡ some slug)
parse_round_trip base slug port n c p = (
  parse_host base slug _ n (append-not_empty slug (suffix base) n)
      (rw (last_colon-none (slug ++ suffix base) c) refl),
  parse_host base slug _ n
      (append-not_empty (slug ++ suffix base) (b':' ∷ port) (append-not_empty slug (suffix base) n))
      (rw (last_colon-append (slug ++ suffix base) port (digits_no_colon port (ground arith)))
        (rw p refl)),
)

label_no_colon : (s : Text) → All (λ c. is_label_char c ≡ true) s → has_no_colon s ≡ true
label_no_colon [] h = refl
label_no_colon (c ∷ s) (p, h) = ground (arith, label_no_colon s h)

has_no_colon-append : (s t : Text) → has_no_colon (s ++ t) ≡ (has_no_colon s && has_no_colon t)
has_no_colon-append [] t = refl
has_no_colon-append (c ∷ s) t = ground (arith, has_no_colon-append s t)

-- The hostname that `GenerateDomain` gives a deployment is one that the proxy understands: `Parse`
-- reads from it the slug of the deployment's name, with or without a port, whatever the name, if its
-- slug is not empty and the base domain holds no colon.
pub generate_domain-parse :
    (name base port : Text)
    → slugify name ≢ []
    → has_no_colon base ≡ true
    → is_port port ≡ true
    → let host = (generate_domain name base).hostname in
      (parse base host ≡ some (slugify name))
      × (parse base (with_port host port) ≡ some (slugify name))
unfolding generate_domain
generate_domain-parse name base port n c p = rw (append_assoc (slugify name) (codes ".") base) (
    parse_round_trip base (slugify name) port n
      (rw (has_no_colon-append (slugify name) (suffix base), label_no_colon _ (slugify_safe name).0)
        c)
      p)

stripped :
    (base slug host : Text)
    → not_empty (strip_suffix (suffix base) host) ≡ some slug
    → (slug ≢ []) × (host ≡ slug ++ suffix base)
stripped base slug host h = elim (Option-cases (strip_suffix (suffix base) host)) [
  | inl e ↦ cc (rw e at h)
  | inr ([], e) ↦ cc (rw e at h)
  | inr (c ∷ s, e) ↦
      let same : some (c ∷ s) ≡ some slug = rw e at h in
      let p : c ∷ s ≡ slug = cc (same) in
      (λ q. cc (p, q), strip_suffix_sound (suffix base) host slug (e ∙ same))
]

-- What `Parse` accepts is a slug that is not empty, a dot and the base domain, and after them nothing
-- or a colon and a port.
pub parse_sound :
    (base hostname slug : Text)
    → parse base hostname ≡ some slug
    → (slug ≢ [])
      × ((hostname ≡ slug ++ suffix base)
          ⊎ ((port : Text) × (is_port port ≡ true)
              × (hostname ≡ with_port (slug ++ suffix base) port)))
unfolding parse
parse_sound base [] slug h = cc
parse_sound base (c ∷ hostname) slug h = elim (Option-cases (last_colon (c ∷ hostname))) [
  | inl e ↦ let (n, p) = stripped base slug (c ∷ hostname) (rw e at h) in (n, inl p)
  | inr ((before, after), e) ↦ elim (Bool-cases (is_port after)) [
    | inl q ↦
        let (n, p) = stripped base slug before (rw q at (rw e at h)) in
        (
          n,
          inr (
            after,
            q,
            last_colon_sound (c ∷ hostname) before after e ∙ ap (λ s. with_port s after) p,
          ),
        )
    | inr q ↦ let (n, p) = stripped base slug (c ∷ hostname) (rw q at (rw e at h)) in (n, inl p)
  ]
]
