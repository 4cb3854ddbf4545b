-- ===== src/FaultApi/Routes.antt =====
-- The paths of the fault service, in the order in which `do_POST`, `do_GET` and `do_DELETE` try them.
use timberdoodle.Base.{ℕ, ◌+◌, ◌*◌, ◌-◌, String, ◌&&◌, Option, none, some, str_eq, if◌then◌else◌}
use Prim.Native.Char.{code}
use timberdoodle.Base.Text.{before_suffix, ends_with, drop_chars}
use timberdoodle.Mapping.{starts_with}
use timberdoodle.HisQuery.Interval.{is_digit}
use timberdoodle.FaultApi.{
  Post, Get, Delete, rule, webhook, enable, ack_of, snooze_of, openapi, docs, faults, Env, Headers,
  Service, Step, do_post, do_delete,
}
use timberdoodle.JsonStore.Records.{Object}

-- The digits that a text begins with, read to a number, and what follows them.
abbrev pub more_digits : ℕ → String → ℕ × String
more_digits n String.[] = (n, "")
more_digits n (String.◌∷◌ c s) =
    let rest = more_digits (n * 10 + (code c - b'0')) s in
    if is_digit (code c) then rest else (n, String.◌∷◌ c s)

-- `(\d+)`, and then the text that the pattern ends with
unfoldable pub number_then : String → String → Option ℕ
number_then end String.[] = none
number_then end (String.◌∷◌ c s) =
    let r = more_digits (code c - b'0') s in
    if is_digit (code c) && str_eq r.1 end then some r.0 else none

-- `_ACK_RE` and `_SNOOZE_RE`
abbrev pub fault_number : String → String → Option ℕ
unfolding number_then
fault_number end path =
    if starts_with path "/faults/" then number_then end (drop_chars 8 path) else none

abbrev pub numbered : Option ℕ → (ℕ → Post) → Post → Post
numbered none f p = p
numbered (some n) f p = f n

unfoldable pub post_route : String → Post
unfolding fault_number number_then ends_with before_suffix
post_route path =
    if str_eq path "/rules"
    then Post.rules
    else if str_eq path "/webhooks"
    then Post.webhooks
    else if starts_with path "/webhooks/" && ends_with path "/enable"
    then enable (drop_chars 10 (before_suffix "/enable" path))
    else numbered (fault_number "/ack" path) ack_of
        (numbered (fault_number "/snooze" path) snooze_of Post.unknown)

-- The query parameters of `GET /faults` have been read.
unfoldable pub get_route : String → Option String → Option String → Option String → Get
get_route path status point rule_id =
    if str_eq path "/openapi.yaml"
    then openapi
    else if str_eq path "/docs"
    then docs
    else if str_eq path "/rules"
    then Get.rules
    else if str_eq path "/webhooks"
    then Get.webhooks
    else if starts_with path "/faults"
    then faults status point rule_id
    else Get.unknown

unfoldable pub delete_route : String → Delete
delete_route path =
    if starts_with path "/rules/"
    then rule (drop_chars 7 path)
    else if starts_with path "/webhooks/"
    then webhook (drop_chars 10 path)
    else Delete.unknown

-- The whole request.
unfoldable pub handle_post : Env → Headers → String → Object → Service → Step
unfolding post_route do_post
handle_post e h path body s = do_post e h (post_route path) body s

unfoldable pub handle_delete : Env → Headers → String → Service → Step
unfolding delete_route do_delete
handle_delete e h path s = do_delete e h (delete_route path) s
