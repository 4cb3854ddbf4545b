-- ===== src/Webhooks/Examples.antt =====
-- A host that is public at the first attempt and resolves to a private address at the third, and a
-- receiver that is down at first.
use timberdoodle.Base.{
  ℕ, zero, none, suc, ◌+◌, ◌*◌, ◌^◌, ◌≤◌, ◌↔◌, ◌≡◌, refl, String, Bool, true, false, some, List, [],
  ◌∷◌, All,
}
use timberdoodle.Webhooks.{
  Network, Address, absent, Reply, response, unreachable, slept, posted, deliver, validate_url,
  check_url, check_host, check_addresses, is_public, host_of, port_of, allowed_scheme, judge,
}
use timberdoodle.Webhooks.Safety.{SafeEffect, deliver_posts_validated}
use timberdoodle.Webhooks.Retries.{Succeeds, deliver-Succeeds_iff}
use timberdoodle.Webhooks.Waits.{requests, waited, deliver_is_bounded}

abbrev address : String → Bool → Address
address shown inside = record {
  shown = shown;
  is_private = inside;
  is_loopback = false;
  is_link_local = false;
  is_reserved = false;
  is_multicast = false;
  is_unspecified = false;
}

abbrev rebinding : ℕ → List Address
rebinding (suc (suc a)) = address "10.0.0.1" true ∷ []
rebinding _ = address "93.184.216.34" false ∷ []

abbrev down : ℕ → Reply
down zero = unreachable "connection refused"
down (suc zero) = response 503
down _ = response 200

abbrev net : Network
net = record {
  urlparse =
      λ url. some (record { scheme = "https"; hostname = some "example.org"; port = absent });
  getaddrinfo = λ attempt host port. some (rebinding attempt);
  post = down;
  hops = λ attempt. [];
}

abbrev trusting : Network
trusting = record net {
  getaddrinfo = λ attempt host port. some (address "93.184.216.34" false ∷ []);
}

-- Two requests leave; the third attempt meets the private address and sends none.
stops_at_private :
    (deliver net false "https://example.org/hook" 1 3).effects
    ≡ posted 0 [] ∷ slept 1 ∷ posted 1 [] ∷ slept 2 ∷ []
unfolding deliver validate_url check_url check_host check_addresses is_public host_of port_of
    allowed_scheme judge
stops_at_private = refl

delivers_in_the_end : (deliver trusting false "https://example.org/hook" 1 3).success ≡ true
unfolding deliver validate_url check_url check_host check_addresses is_public host_of port_of
    allowed_scheme judge
delivers_in_the_end = refl

-- A public receiver that redirects to an address inside: the delivery goes there and counts.
abbrev redirecting : Network
redirecting = record trusting {
  post = λ attempt. response 200;
  hops = λ attempt.
      record { url = "https://example.org/hook"; address = address "93.184.216.34" false }
      ∷ record { url = "http://10.0.0.1/"; address = address "10.0.0.1" true }
      ∷ [];
}

follows_redirect :
    deliver redirecting false "https://example.org/hook" 1 3
    ≡ record { success = true; last_error = none; effects = posted 0 (redirecting.hops 0) ∷ [] }
unfolding deliver validate_url check_url check_host check_addresses is_public host_of port_of
    allowed_scheme judge
follows_redirect = refl

deliver_posts_validated_example :
    All
      (SafeEffect net "https://example.org/hook")
      (deliver net false "https://example.org/hook" 1 3).effects
deliver_posts_validated_example = deliver_posts_validated net "https://example.org/hook" 1 3

deliver_is_bounded_example :
    (requests (deliver net false "https://example.org/hook" 1 3).effects ≤ 3)
    × (waited (deliver net false "https://example.org/hook" 1 3).effects + 1 ≤ 1 * 2 ^ 2)
deliver_is_bounded_example = deliver_is_bounded net false "https://example.org/hook" 1 2

deliver-Succeeds_iff_example :
    ((deliver trusting false "https://example.org/hook" 1 3).success ≡ true)
    ↔ Succeeds trusting false "https://example.org/hook" 0 3
deliver-Succeeds_iff_example = deliver-Succeeds_iff trusting false "https://example.org/hook" 1 3
