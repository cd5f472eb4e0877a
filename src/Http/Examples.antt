-- ===== src/Http/Examples.antt =====
-- Tests of the HTTP client, on a provider that is busy once and then answers.
use deepinsight.Prelude.{
  ℕ, ◌+◌, ◌*◌, ◌≤◌, ◌≡◌, refl, inl, inr, pos, negsuc, String, false, none, some, List, [], ◌∷◌,
  ◌++◌, max, In, arith,
}
use deepinsight.Http.World.{
  Reply, Event, sent, clock_read, wall_read, slept, corrupt, World, Session,
}
use deepinsight.Http.Headers.{add_headers, own_headers}
use deepinsight.Http.Client.{Client, Rate, client, configured, negative_retries}
use deepinsight.Http.Fetch.{Answer, text, retry_after_error, get_text}
use deepinsight.Http.Conversation.{IsConversation}
use deepinsight.Http.Requests.{IsBounded, get_text-IsConversation, get_text-IsBounded}
use deepinsight.Http.Identity.{IsIdentified, add_headers-IsIdentified}
use deepinsight.Http.Pacing.{IsPaced, IsSleeping, get_text-IsPaced}
use deepinsight.Http.Sleeping.{time_slept, get_text-time_slept}

abbrev with_status : ℕ → List (String × String) → Reply
with_status status headers =
    some (record { status_code = status; headers = headers; body = 111 ∷ 107 ∷ [] })

-- Busy until a request has been sent.
abbrev busy_once : (retry_after : String) → List Event → Reply
busy_once retry_after [] = with_status 503 (("retry-after", retry_after) ∷ [])
busy_once retry_after (sent request reply ∷ events) = with_status 200 []
busy_once retry_after (clock_read t ∷ events) = busy_once retry_after events
busy_once retry_after (wall_read t ∷ events) = busy_once retry_after events
busy_once retry_after (slept d ∷ events) = busy_once retry_after events

-- A clock that moves by what is slept.
abbrev sleep_clock : List Event → ℕ
sleep_clock [] = 5
sleep_clock (slept d ∷ events) = d + sleep_clock events
sleep_clock (clock_read t ∷ events) = max t (sleep_clock events)
sleep_clock (sent request reply ∷ events) = sleep_clock events
sleep_clock (wall_read t ∷ events) = sleep_clock events

abbrev world : (retry_after : String) → World
world retry_after = record {
  send = λ request timeout. busy_once retry_after;
  clock = sleep_clock;
  wall_clock = λ events. 0;
  gunzip = λ payload. corrupt;
  inflate = λ payload. none;
  inflate_raw = λ payload. none;
  decode_utf8 = λ payload. "ok";
  read_float = λ value. none;
  second = 10;
}

abbrev agent : Client
agent = record {
  user_agent = "research";
  request_timeout = 100;
  max_retries = 2;
  minimum_interval = 5;
  backoff_base_seconds = 3;
  max_backoff_seconds = 300;
}

abbrev fresh : Session
fresh = record { last_request_at = none; request_count = 0; retry_count = 0; events = [] }

fetch : String → Answer × Session
fetch retry_after =
    get_text (world retry_after) agent "https://a.b" "text/plain" (("X-Key", "k") ∷ []) false fresh

abbrev two_per_second : Rate
two_per_second = record { numerator = pos 2; less_one = 0 }

configured_agent :
    client (world "2") " research " (pos 10) (pos 2) two_per_second (pos 0) (pos 30)
    ≡ configured (record {
      user_agent = "research";
      request_timeout = 10;
      max_retries = 2;
      minimum_interval = 5;
      backoff_base_seconds = 0;
      max_backoff_seconds = 30;
    })
unfolding client
configured_agent = refl

no_negative_retries :
    client (world "2") "a" (pos 10) (negsuc 0) two_per_second (pos 0) (pos 30) ≡ negative_retries
unfolding client
no_negative_retries = refl

fetch_text : (fetch "2").0 ≡ text "ok"
unfolding fetch get_text
fetch_text = refl

fetch_counts : ◌≡◌ {A = ℕ × ℕ} ((fetch "2").1.request_count, (fetch "2").1.retry_count) (2, 1)
unfolding fetch get_text
fetch_counts = refl

fetch_sleeps : time_slept (fetch "2").1.events ≡ 20
unfolding fetch get_text
fetch_sleeps = refl

-- A date in Retry-After is ignored.
date_sleeps : time_slept (fetch "Fri").1.events ≡ 5
unfolding fetch get_text
date_sleeps = refl

-- A superscript two is a digit for `isdigit` and no number for `float`.
superscript_raises : (fetch "²").0 ≡ retry_after_error
unfolding fetch get_text
superscript_raises = refl

sleep_clock-IsSleeping : IsSleeping (world "2")
sleep_clock-IsSleeping t d events = omega arith

sleep_clock-In : (t : ℕ) (events : List Event) → In (clock_read t) events → t ≤ sleep_clock events
sleep_clock-In t [] m = absurd m
sleep_clock-In t (sent request reply ∷ events) (inl e) = cc
sleep_clock-In t (sent request reply ∷ events) (inr m) = sleep_clock-In t events m
sleep_clock-In t (wall_read u ∷ events) (inl e) = cc
sleep_clock-In t (wall_read u ∷ events) (inr m) = sleep_clock-In t events m
sleep_clock-In t (slept d ∷ events) (inl e) = cc
sleep_clock-In t (slept d ∷ events) (inr m) = omega (arith, sleep_clock-In t events m)
sleep_clock-In t (clock_read u ∷ events) (inl e) = let same : u ≡ t = cc in omega (arith, same)
sleep_clock-In t (clock_read u ∷ events) (inr m) = omega (arith, sleep_clock-In t events m)

get_text-IsConversation_example :
    IsConversation (world "2") agent false 3 0 fresh (fetch "2").1 (fetch "2").0
unfolding fetch add_headers
get_text-IsConversation_example =
    get_text-IsConversation (world "2") agent "https://a.b" "text/plain" (("X-Key", "k") ∷ []) false
      (own_headers "research" "text/plain" ++ (("X-Key", "k") ∷ [])) fresh refl refl

get_text-IsBounded_example :
    IsBounded
      (world "2")
      agent
      "https://a.b"
      "text/plain"
      (("X-Key", "k") ∷ [])
      false
      fresh
      (fetch "2").1
      (fetch "2").0
unfolding fetch
get_text-IsBounded_example =
    get_text-IsBounded (world "2") agent "https://a.b" "text/plain" (("X-Key", "k") ∷ []) false
      fresh

add_headers-IsIdentified_example :
    IsIdentified "research" "text/plain"
      (("X-Key", "k") ∷ [])
      (own_headers "research" "text/plain" ++ (("X-Key", "k") ∷ []))
unfolding add_headers
add_headers-IsIdentified_example =
    add_headers-IsIdentified "research" "text/plain" (("X-Key", "k") ∷ [])
      (own_headers "research" "text/plain" ++ (("X-Key", "k") ∷ [])) refl

get_text-IsPaced_example : IsPaced agent (fetch "2").1
unfolding fetch
get_text-IsPaced_example =
    get_text-IsPaced (world "2") agent sleep_clock-IsSleeping "https://a.b" "text/plain"
      (("X-Key", "k") ∷ []) false fresh (record { spaced = tt; newest = tt })

get_text-time_slept_example : time_slept (fetch "2").1.events ≤ 0 + 3 * (5 + 300)
unfolding fetch
get_text-time_slept_example =
    get_text-time_slept (world "2") agent sleep_clock-In "https://a.b" "text/plain"
      (("X-Key", "k") ∷ []) false fresh tt
