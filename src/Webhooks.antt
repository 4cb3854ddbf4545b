-- ===== src/Webhooks.antt =====
-- src/timberdoodle/webhooks.py: the check of a target, the filter, and the delivery loop. The body and
-- its signature are made once before the loop and do not change; the model leaves their bytes out.
pub mod Safety
pub mod Retries
pub mod Waits
mod Examples
use timberdoodle.Base.{
  ℕ, zero, suc, ◌+◌, ◌-◌, ◌*◌, ◌^◌, String, Bool, true, false, ◌&&◌, ◌||◌, Option, none, some, List,
  [], ◌∷◌, ◌++◌, ◌==◌, leb, ltb, str_eq, if◌then◌else◌,
}

-- What `ipaddress.ip_address` says of a resolved address.
pub record Address : Type 0 where
  pub shown : String
  pub is_private : Bool
  pub is_loopback : Bool
  pub is_link_local : Bool
  pub is_reserved : Bool
  pub is_multicast : Bool
  pub is_unspecified : Bool

-- `parsed.port` raises ValueError on a port that is no number in range.
pub data Port : Type 0 where
  absent invalid : Port
  number : ℕ → Port

pub record Url : Type 0 where
  pub scheme : String
  pub hostname : Option String
  pub port : Port

-- A request that `requests` sends: it follows redirects, and each time resolves the host by itself.
pub record Hop : Type 0 where
  pub url : String
  pub address : Address

-- How `requests.post` ends: a response, a RequestException that is a ValueError too (InvalidURL and its like),
-- or any other RequestException.
pub data Reply : Type 0 where
  response : ℕ → Reply
  rejected : String → Reply
  unreachable : String → Reply

-- The network, which may answer each attempt differently. `urlparse` and `getaddrinfo` give `none`
-- where they raise ValueError and gaierror. `hops` is what one call of `requests.post` sends, which
-- this file leaves to `requests`.
pub record Network : Type 0 where
  pub urlparse : String → Option Url
  pub getaddrinfo : ℕ → String → ℕ → Option (List Address)
  pub post : ℕ → Reply
  pub hops : ℕ → List Hop

pub data Refusal : Type 0 where
  malformed no_scheme_or_host bad_port : Refusal
  unresolved : String → Refusal
  non_public : String → Refusal

unfoldable pub is_public : Address → Bool
is_public ip =
    if ip.is_private
      || (ip.is_loopback
          || (ip.is_link_local || (ip.is_reserved || (ip.is_multicast || ip.is_unspecified))))
    then false
    else true

unfoldable pub check_addresses : List Address → Option Refusal
check_addresses [] = none
check_addresses (ip ∷ ips) =
    let rest = check_addresses ips in if is_public ip then rest else some (non_public ip.shown)

unfoldable pub allowed_scheme : Bool → String → Bool
allowed_scheme allow_private s = str_eq s "https" || (allow_private && str_eq s "http")

-- `not parsed.hostname` holds of None and of the empty text.
unfoldable pub host_of : Url → Option String
host_of u = elim u.hostname [ none ↦ none | some h ↦ if str_eq h "" then none else some h ]

unfoldable pub port_of : Port → Option ℕ
port_of absent = some 443
port_of invalid = none
port_of (number n) = some (if n == 0 then 443 else n)

-- `some e` is the ValueError that `validate_url` raises.
module _ (net : Network) (attempt : ℕ) where
  unfoldable pub check_host : Bool → String → ℕ → Option Refusal
  check_host allow_private host port = elim (net.getaddrinfo attempt host port) [
    | none ↦ some (unresolved host)
    | some addrs ↦ if allow_private then none else check_addresses addrs
  ]

  unfoldable pub check_url : Bool → Url → Option Refusal
  check_url allow_private u =
      if allowed_scheme allow_private u.scheme
      then elim (host_of u) [
        | none ↦ some no_scheme_or_host
        | some host ↦ elim (port_of u.port) [
          | none ↦ some bad_port
          | some port ↦ check_host allow_private host port
        ]
      ]
      else some no_scheme_or_host

  unfoldable pub validate_url : Bool → String → Option Refusal
  validate_url allow_private url = elim (net.urlparse url) [
    | none ↦ some malformed
    | some u ↦ check_url allow_private u
  ]

-- A webhook's `filter`: absent or empty, or with a `rule_id` that may be absent.
unfoldable pub matches_filter : Option (Option String) → String → Bool
matches_filter none rule = true
matches_filter (some none) rule = true
matches_filter (some (some want)) rule = str_eq want rule

pub data Problem : Type 0 where
  refused : Refusal → Problem
  invalid_request : String → Problem
  request_failed : String → Problem
  bad_status : ℕ → Problem

-- How the body of the `try` ends.
pub data Outcome : Type 0 where
  delivered : Outcome
  fatal : Problem → Outcome
  transient : Problem → Outcome

-- `raise_for_status` raises on 4xx and 5xx.
unfoldable pub judge : Reply → Outcome
judge (response code) =
    if leb 400 code && ltb code 600 then transient (bad_status code) else delivered
judge (rejected e) = fatal (invalid_request e)
judge (unreachable e) = transient (request_failed e)

-- What `deliver` does that can be seen: the waits, and the calls of `requests.post` with what they
-- send.
pub data Effect : Type 0 where
  slept : ℕ → Effect
  posted : ℕ → List Hop → Effect

pub record Delivery : Type 0 where
  pub success : Bool
  pub last_error : Option Problem
  pub effects : List Effect

abbrev pub preceded : List Effect → Delivery → Delivery
preceded es d = record d { effects = es ++ d.effects }

abbrev pub backoff : ℕ → ℕ → List Effect
backoff base zero = []
backoff base (suc a) = slept (base * 2 ^ a) ∷ []

-- `return True, None`, `return False, str(exc)`, or the next round.
abbrev pub conclude : Outcome → (Problem → Delivery) → Delivery
conclude delivered retry = record { success = true; last_error = none; effects = [] }
conclude (fatal e) retry = record { success = false; last_error = some e; effects = [] }
conclude (transient e) retry = retry e

module _ (net : Network) (allow_private : Bool) (url : String) (base : ℕ) where
  -- The rounds that are left, the number of the attempt, and `last_error`.
  unfoldable pub deliver_from : ℕ → ℕ → Option Problem → Delivery
  deliver_from zero attempt last = record { success = false; last_error = last; effects = [] }
  deliver_from (suc left) attempt last = elim (validate_url net attempt allow_private url) [
    | some e ↦ record {
      success = false;
      last_error = some (refused e);
      effects = backoff base attempt;
    }
    | none ↦
        preceded (backoff base attempt ++ posted attempt (net.hops attempt) ∷ [])
          (conclude (judge (net.post attempt)) (λ e. deliver_from left (attempt + 1) (some e)))
  ]

  unfoldable pub deliver : ℕ → Delivery
  unfolding deliver_from
  deliver max_attempts = deliver_from max_attempts 0 none
