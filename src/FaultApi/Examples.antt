-- ===== src/FaultApi/Examples.antt =====
-- A service with one webhook, and the requests that the theorems speak of.
use timberdoodle.Base.{◌≡◌, refl, arith, true, none, some, List, [], ◌∷◌, All}
use timberdoodle.Base.Dict.{text_key, lookup}
use timberdoodle.Values.{null, text, tree}
use timberdoodle.JsonStore.{missing, holds, load}
use timberdoodle.JsonStore.Records.{Object, save, status, object, objects, merge, has_record}
use timberdoodle.Webhooks.{
  Network, absent, response, validate_url, check_url, allowed_scheme, host_of, port_of, check_host,
}
use timberdoodle.Health.Webhook.{list_webhook_health}
use timberdoodle.FaultApi.{
  Service, Env, Headers, do_post, get_webhooks, create_webhook, new_webhook, delete_webhook,
  url_problem, came_through_gateway, create_rule, rule_of, redact_webhook, health_object,
  default_health, listed_webhooks,
}
use timberdoodle.FaultApi.Access.{posted, handle, handle-error}
use timberdoodle.FaultApi.Routes.{handle_post, post_route}
use timberdoodle.FaultApi.Records.{get_webhooks-redacted, delete_webhook-create_webhook}

abbrev hook : Object
hook = ("id", text "w1") ∷ ("url", text "https://example.org/a") ∷ ("secret", text "s3cret") ∷ []

abbrev service : Service
service = record {
  rules = missing;
  webhooks = holds (hook ∷ []);
  health = [];
  faults = record { next_id = 1; rows = [] };
}

abbrev net : Network
net = record {
  urlparse =
      λ url. some (record { scheme = "https"; hostname = some "example.org"; port = absent });
  getaddrinfo = λ attempt host port. some [];
  post = λ attempt. response 200;
  hops = λ attempt. [];
}

abbrev env : Env
env = record {
  expected = some "gateway";
  network = net;
  allow_private = true;
  fresh_id = "w2";
  now = 100;
}

abbrev headers : Headers
headers = record { gateway_secret = "gateway"; user = none }

abbrev body : Object
body = ("url", text "https://example.org/b") ∷ ("secret", text "other") ∷ []

-- A rule that lacks its name is refused.
refuses_rule : (handle env headers (posted "/rules" body) service).1 ≡ status 400
unfolding handle handle_post post_route do_post came_through_gateway create_rule rule_of
refuses_rule = refl

handle-error_example : (handle env headers (posted "/rules" body) service).0 ≡ service
unfolding handle handle_post post_route do_post came_through_gateway create_rule rule_of
handle-error_example = handle-error env headers (posted "/rules" body) service (omega (arith))

abbrev shown : List Object
shown = merge (redact_webhook hook) (health_object default_health) ∷ []

lists_one : get_webhooks service ≡ objects shown
unfolding get_webhooks load listed_webhooks list_webhook_health lookup
lists_one = refl

get_webhooks-redacted_example : All (λ o. lookup "secret" o ≡ some null) shown
get_webhooks-redacted_example = get_webhooks-redacted service shown lists_one

takes_url : url_problem net true (text "https://example.org/b") ≡ none
unfolding url_problem validate_url check_url allowed_scheme host_of port_of check_host
takes_url = refl

delete_webhook-create_webhook_example :
    ((create_webhook net true "w2" body service).1
      ≡ object 201 (new_webhook "w2" (text "https://example.org/b") (text "other") body))
    × (delete_webhook "w2" (create_webhook net true "w2" body service).0
        ≡ (record service { webhooks = save (hook ∷ []) }, status 204))
unfolding load lookup has_record
delete_webhook-create_webhook_example =
    delete_webhook-create_webhook net true "w2" body (text "https://example.org/b") (text "other")
      service (hook ∷ []) refl refl takes_url refl refl

abbrev rule_body : Object
rule_body =
    ("name", text "hot")
    ∷ ("mode", text "cur")
    ∷ ("type", text "range")
    ∷ ("applies_to", tree "{}" "{}")
    ∷ ("id", text "r1")
    ∷ []

abbrev rule : Object
rule =
    ("id", text "r1")
    ∷ ("name", text "hot")
    ∷ ("mode", text "cur")
    ∷ ("type", text "range")
    ∷ ("applies_to", tree "{}" "{}")
    ∷ []
