-- ===== src/Webhooks/Safety.antt =====
-- The targets with which a delivery calls `requests.post`.
use timberdoodle.Base.{
  ℕ, zero, suc, ◌+◌, ◌≡◌, refl, String, true, false, Option, none, some, List, [], ◌∷◌, ◌++◌, arith,
  All, all, eq_iff, Bool-cases, Option-cases, inl, inr, All-append,
}
use timberdoodle.Webhooks.{
  Network, Url, Address, Effect, slept, posted, Delivery, is_public, check_addresses, check_host,
  check_url, validate_url, host_of, port_of, allowed_scheme, deliver_from, deliver, backoff, judge,
  preceded, delivered, fatal, transient, conclude, Problem, Outcome,
}

-- The URL is https with a host, and each address that the host has at this attempt is public.
pub record IsSafe (net : Network) (url : String) (attempt : ℕ) : Type 0 where
  pub parsed : Url
  pub parses : net.urlparse url ≡ some parsed
  pub https : parsed.scheme ≡ "https"
  pub host : String
  pub hosts : host_of parsed ≡ some host
  pub port : ℕ
  pub ports : port_of parsed.port ≡ some port
  pub addresses : List Address
  pub resolves : net.getaddrinfo attempt host port ≡ some addresses
  pub all_public : all is_public addresses ≡ true

check_addresses-all : (ips : List Address) → check_addresses ips ≡ none → all is_public ips ≡ true
unfolding check_addresses
check_addresses-all [] h = refl
check_addresses-all (ip ∷ ips) h = ground (arith, check_addresses-all ips)

https_only : (s : String) → allowed_scheme false s ≡ true → s ≡ "https"
unfolding allowed_scheme
https_only s h = ground (arith, eq_iff s "https")

module _ (net : Network) (url : String) (attempt : ℕ) where
  IsSafe-host :
      (u : Url) (host : String) (port : ℕ)
      → net.urlparse url ≡ some u
      → u.scheme ≡ "https"
      → host_of u ≡ some host
      → port_of u.port ≡ some port
      → check_host net attempt false host port ≡ none
      → IsSafe net url attempt
  IsSafe-host u host port pu ps ph pp h = elim (Option-cases (net.getaddrinfo attempt host port)) [
    | inl e ↦ absurd (unfold check_host in ground (arith, e))
    | inr (addrs, e) ↦ record {
      parsed = u;
      parses = pu;
      https = ps;
      host = host;
      hosts = ph;
      port = port;
      ports = pp;
      addresses = addrs;
      resolves = e;
      all_public = check_addresses-all addrs (unfold check_host in ground (arith, e));
    }
  ]

  IsSafe-url :
      (u : Url)
      → net.urlparse url ≡ some u
      → check_url net attempt false u ≡ none
      → IsSafe net url attempt
  IsSafe-url u pu h = elim (Bool-cases (allowed_scheme false u.scheme)) [
    | inr e ↦ absurd (unfold check_url in ground (arith, e))
    | inl e ↦ elim (Option-cases (host_of u)) [
      | inl e' ↦ absurd (unfold check_url in ground (arith, e, e'))
      | inr (host, e') ↦ elim (Option-cases (port_of u.port)) [
        | inl e'' ↦ absurd (unfold check_url in ground (arith, e, e', e''))
        | inr (port, e'') ↦
            IsSafe-host u host port pu (https_only u.scheme e) e' e''
              (unfold check_url in ground (arith, e, e', e''))
      ]
    ]
  ]

  pub validate_url-IsSafe : validate_url net attempt false url ≡ none → IsSafe net url attempt
  validate_url-IsSafe h = elim (Option-cases (net.urlparse url)) [
    | inl e ↦ absurd (unfold validate_url in ground (arith, e))
    | inr (u, e) ↦ IsSafe-url u e (unfold validate_url in ground (arith, e))
  ]

abbrev pub SafeEffect : Network → String → Effect → Type 0
SafeEffect net url (slept _) = Unit
SafeEffect net url (posted attempt hops) = IsSafe net url attempt

module _ (net : Network) (url : String) (base : ℕ) where
  backoff-safe : (a : ℕ) → All (SafeEffect net url) (backoff base a)
  backoff-safe zero = tt
  backoff-safe (suc a) = (tt, tt)

  abbrev SafeEffects : Delivery → Type 0
  SafeEffects d = All (SafeEffect net url) d.effects

  tried-safe :
      (a : ℕ) (d : Delivery)
      → IsSafe net url a
      → SafeEffects d
      → SafeEffects (preceded (backoff base a ++ posted a (net.hops a) ∷ []) d)
  tried-safe a d ok h =
      All-append (SafeEffect net url) (backoff base a ++ posted a (net.hops a) ∷ []) d.effects
        (All-append (SafeEffect net url) (backoff base a) (posted a (net.hops a) ∷ [])
          (backoff-safe a) (ok, tt))
        h

  next : ℕ → ℕ → Problem → Delivery
  next left a e = deliver_from net false url base left (a + 1) (some e)

  conclude-safe :
      (o : Outcome) (k : Problem → Delivery)
      → ((e : Problem) → SafeEffects (k e))
      → SafeEffects (conclude o k)
  conclude-safe delivered k h = tt
  conclude-safe (fatal e) k h = tt
  conclude-safe (transient e) k h = h e

  deliver_from-safe :
      (left a : ℕ) (last : Option Problem)
      → SafeEffects (deliver_from net false url base left a last)
  unfolding deliver_from next
  deliver_from-safe zero a last = tt
  deliver_from-safe (suc left) a last = elim (Option-cases (validate_url net a false url)) [
    | inr (e, p) ↦ rw (p, deliver_from) (backoff-safe a)
    | inl p ↦
        rw (p, deliver_from)
          (tried-safe a (conclude (judge (net.post a)) (next left a))
            (validate_url-IsSafe net url a p)
            (conclude-safe (judge (net.post a)) (next left a)
              (λ e. deliver_from-safe left (a + 1) (some e))))
  ]

-- Unless private targets are allowed, a delivery calls `requests.post` only in an attempt in which the
-- webhook's URL is https with a host whose addresses, as `validate_url` resolves them in that very
-- attempt, are all public. What the call then sends, after a redirect or a resolution of its own, is
-- not covered.
pub deliver_posts_validated :
    (net : Network) (url : String) (base max_attempts : ℕ)
    → All (SafeEffect net url) (deliver net false url base max_attempts).effects
unfolding deliver
deliver_posts_validated net url base max_attempts =
    deliver_from-safe net url base max_attempts 0 none
