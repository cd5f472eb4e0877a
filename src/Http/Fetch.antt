-- ===== src/Http/Fetch.antt =====
-- `get_text`: the checks of the request, and the retry loop.
use deepinsight.Prelude.{
  ℕ, zero, suc, ◌+◌, String, Bool, not, ◌&&◌, ◌||◌, Option, none, some, List, if◌then◌else◌, ltb,
  leb, ◌==◌, starts_with,
}
use deepinsight.Http.World.{ProviderHttpResponse, Request, Reply, sent, World, Session, log}
use deepinsight.Http.Headers.{add_headers, own_headers}
use deepinsight.Http.Payload.{Decoded, decoded, undecodable, end_of_file, decode_response}
use deepinsight.Http.Client.{Client, wait_for_rate_limit, sleep_before_retry}

-- What `get_text` returns or raises. The three messages of a ProviderUnavailableError are
-- constructors; `sanitized` is the error that the caller's factory makes.
pub data Answer : Type 0 where
  text : String → Answer
  attempts_failed : (attempts : ℕ) → Answer
  decoding_failed : Answer
  failed_status : (status_code : ℕ) → Answer
  sanitized : (status_code : ℕ) → (error_text : String) → Answer
  not_https invalid_header : Answer
  -- Other exceptions, which escape.
  eof_error retry_after_error assertion_error : Answer

abbrev pub is_success : ℕ → Bool
is_success status = leb 200 status && ltb status 300

-- `_RETRYABLE_STATUS_CODES`
abbrev pub is_retryable : ℕ → Bool
is_retryable status =
    (status == 429) || (status == 500) || (status == 502) || (status == 503) || (status == 504)

abbrev pub success : Decoded → Answer
success (decoded body) = text body
success undecodable = decoding_failed
success end_of_file = eof_error

-- A UnicodeError cannot occur: the decoding replaces.
abbrev pub from_factory : ℕ → Decoded → Answer
from_factory status (decoded error_text) = sanitized status error_text
from_factory status undecodable = sanitized status ""
from_factory status end_of_file = eof_error

unfoldable pub status_error : World → (has_factory : Bool) → ProviderHttpResponse → Answer
unfolding decode_response
status_error w has_factory response =
    if has_factory
    then from_factory response.status_code (decode_response w response)
    else failed_status response.status_code

-- The answer to a reply, if it ends the loop; `last` is attempt + 1 == attempts.
unfoldable pub verdict :
    World → (has_factory : Bool) → (attempts : ℕ) → (last : Bool) → Reply → Option Answer
unfolding decode_response status_error
verdict w has_factory attempts last none = if last then some (attempts_failed attempts) else none
verdict w has_factory attempts last (some response) =
    if is_success response.status_code
    then some (success (decode_response w response))
    else if not (is_retryable response.status_code) || last
    then some (status_error w has_factory response)
    else none

abbrev pub count : (attempt : ℕ) → Session → Session
count zero s = record s { request_count = suc s.request_count }
count (suc attempt) s = record s {
  request_count = suc s.request_count;
  retry_count = suc s.retry_count;
}

-- One request: the rate limit, the counters and the transport.
unfoldable pub send : World → Client → Request → (attempt : ℕ) → Session → Reply × Session
unfolding wait_for_rate_limit
send w c request attempt s =
    let s' = count attempt (wait_for_rate_limit w c s) in
    let reply = w.send request c.request_timeout s'.events in (reply, log (sent request reply) s')

abbrev pub attempts : Client → ℕ
attempts c = c.max_retries + 1

module _ (w : World) (c : Client) (has_factory : Bool) (request : Request) where
  -- The loop over `range(attempts)`: `left` rounds, from `attempt` on.
  unfoldable pub rounds : (left attempt : ℕ) → Session → Answer × Session
  unfolding send verdict sleep_before_retry
  rounds zero attempt s = (assertion_error, s)
  rounds (suc left) attempt s =
      let (reply, s') = send w c request attempt s in
      elim (verdict w has_factory (attempts c) ((attempt + 1) == attempts c) reply) [
        | some answer ↦ (answer, s')
        | none ↦ elim (sleep_before_retry w c attempt reply s') [
          | none ↦ (retry_after_error, s')
          | some s'' ↦ rounds left (suc attempt) s''
        ]
      ]

unfoldable pub requested :
    World
    → Client
    → (has_factory : Bool) → (url : String) → Option (List (String × String))
    → Session
    → Answer × Session
unfolding rounds
requested w c has_factory url none s = (invalid_header, s)
requested w c has_factory url (some headers) s =
    rounds w c has_factory (record { url = url; headers = headers }) (attempts c) 0 s

unfoldable pub get_text :
    World
    → Client
    → (url accept : String) → (headers : List (String × String)) → (has_factory : Bool) → Session
    → Answer × Session
unfolding add_headers requested
get_text w c url accept headers has_factory s =
    if not (starts_with url "https://")
    then (not_https, s)
    else requested w c has_factory url (add_headers (own_headers c.user_agent accept) headers) s
