-- ===== src/FaultApi/Records.antt =====
-- Webhooks and rules under the handlers: what is stored, and what is shown of it.
use timberdoodle.Base.{
  ◌≡◌, refl, sym, subst, ap, ◌∙◌, inl, inr, String, Bool, true, false, none, some, List, [], ◌∷◌,
  All, arith, eq_iff, Option-cases,
}
use timberdoodle.Base.Dict.{text_key, lookup, insert, lookup-insert}
use timberdoodle.Values.{Value, null}
use timberdoodle.JsonStore.{File, load}
use timberdoodle.JsonStore.Records.{
  Object, save, merge, has_record, id_is, Response, status, object, objects, append_record,
}
use timberdoodle.JsonStore.Records.Laws.{
  lookup-merge, delete_record-append_record, append_record-loaded,
}
use timberdoodle.Health.{HealthTable}
use timberdoodle.Health.Webhook.{list_webhook_health}
use timberdoodle.Webhooks.{Network}
use timberdoodle.FaultApi.{
  Service, Step, url_problem, new_webhook, register, unless_problem, create_webhook, delete_webhook,
  redact_webhook, health_object, health_of, listed_webhook, listed_webhooks, get_webhooks,
  with_webhooks,
}

listed_webhook-redacted :
    (t : HealthTable String) (w o : Object)
    → listed_webhook t w ≡ some o
    → lookup "secret" o ≡ some null
unfolding listed_webhook redact_webhook
listed_webhook-redacted t w o h = elim (Option-cases (lookup "id" w)) [
  | inl e ↦ ground (arith, e, h)
  | inr (i, e) ↦ elim (Option-cases (health_of t i)) [
    | inl k ↦ ground (arith, e, k, h)
    | inr (r, k) ↦
        let is : merge (insert "secret" null w) (health_object r) ≡ o = ground (arith, e, k, h) in
        ap (lookup "secret") (sym is)
        ∙ lookup-merge "secret" (insert "secret" null w) (health_object r) refl
        ∙ lookup-insert "secret" "secret" null w
  ]
]

listed_webhooks-redacted :
    (t : HealthTable String) (ws os : List Object)
    → listed_webhooks t ws ≡ some os
    → All (λ o. lookup "secret" o ≡ some null) os
unfolding listed_webhooks
listed_webhooks-redacted t [] os h =
    let is : [] ≡ os = cc in subst (All (λ o. lookup "secret" o ≡ some null)) is tt
listed_webhooks-redacted t (w ∷ ws) os h = elim (Option-cases (listed_webhook t w)) [
  | inl e ↦ ground (arith, e, h)
  | inr (o, e) ↦ elim (Option-cases (listed_webhooks t ws)) [
    | inl k ↦ ground (arith, e, k, h)
    | inr (rest, k) ↦
        let is : o ∷ rest ≡ os = ground (arith, e, k, h) in
        subst (All (λ o. lookup "secret" o ≡ some null)) is
          (listed_webhook-redacted t w o e, listed_webhooks-redacted t ws rest k)
  ]
]

-- `GET /webhooks` shows no secret, whatever the file and the health table hold: each webhook that it
-- answers has null under `secret`.
pub get_webhooks-redacted :
    (s : Service) (os : List Object)
    → get_webhooks s ≡ objects os
    → All (λ o. lookup "secret" o ≡ some null) os
unfolding get_webhooks
get_webhooks-redacted s os h = elim (Option-cases (load s.webhooks)) [
  | inl e ↦ ground (arith, e, h)
  | inr (ws, e) ↦ elim (Option-cases (listed_webhooks (list_webhook_health s.health) ws)) [
    | inl k ↦ ground (arith, e, k, h)
    | inr (rest, k) ↦
        listed_webhooks-redacted (list_webhook_health s.health) ws os (ground (arith, e, k, h))
  ]
]

-- A webhook is stored only under a URL that `validate_url` takes, and else nothing changes.
create_webhook-url :
    (net : Network) (allow : Bool) (id : String) (body : Object) (s : Service) (r : Response)
    → (url : Value) → lookup "url" body ≡ some url
    → url_problem net allow url ≡ some r
    → create_webhook net allow id body s ≡ (s, r)
unfolding create_webhook
create_webhook-url net allow id body s r url e p = rw (e, create_webhook, p, unless_problem) refl

create_webhook-taken :
    (net : Network) (allow : Bool) (id : String) (body : Object) (url secret : Value) (s : Service)
    → lookup "url" body ≡ some url
    → lookup "secret" body ≡ some secret
    → url_problem net allow url ≡ none
    → create_webhook net allow id body s
      ≡ with_webhooks s (append_record (new_webhook id url secret body) s.webhooks)
unfolding create_webhook
create_webhook-taken net allow id body url secret s u c p =
    rw (u, create_webhook, p, unless_problem, c, register) refl

new_webhook-id :
    (id : String) (url secret : Value) (body : Object)
    → id_is id (new_webhook id url secret body) ≡ some true
unfolding id_is lookup
new_webhook-id id url secret body = ground (arith, eq_iff id id)

-- A webhook that the service takes is answered with 201 and its fresh id; deleting it under that id
-- answers 204 and leaves the service that was there.
pub delete_webhook-create_webhook :
    (net : Network) (allow : Bool) (id : String) (body : Object) (url secret : Value) (s : Service)
    (ws : List Object)
    → lookup "url" body ≡ some url
    → lookup "secret" body ≡ some secret
    → url_problem net allow url ≡ none
    → load s.webhooks ≡ some ws
    → has_record id ws ≡ some false
    → ((create_webhook net allow id body s).1 ≡ object 201 (new_webhook id url secret body))
      × (delete_webhook id (create_webhook net allow id body s).0
          ≡ (record s { webhooks = save ws }, status 204))
unfolding delete_webhook
delete_webhook-create_webhook net allow id body url secret s ws u c p l h =
    let made = create_webhook-taken net allow id body url secret s u c p in
    let w : Object = new_webhook id url secret body in
    (
      ap (λ (q : Step). q.1) made
          ∙ ap (λ (q : File Object × Response). q.1) (append_record-loaded w s.webhooks ws l),
      ap (λ (q : Step). delete_webhook id q.0) made
          ∙ ap (λ (q : File Object × Response). with_webhooks s q)
              (delete_record-append_record id s.webhooks ws w l h
                (new_webhook-id id url secret body)),
    )
