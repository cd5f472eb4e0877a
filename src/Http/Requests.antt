-- ===== src/Http/Requests.antt =====
-- The calls of `get_text`: their conversation, their number of requests, and what each keeps.
use deepinsight.Prelude.{
  ℕ, ◌+◌, ◌-◌, ◌≤◌, ◌≡◌, ◌≢◌, refl, sym, ◌∙◌, ◌⊎◌, inl, inr, String, Bool, true, false, some, List,
  [], ◌∷◌, ◌++◌, starts_with, Bool-cases, Option-cases, arith, length,
}
use deepinsight.Http.World.{ProviderHttpResponse, Reply, World, Session, replies}
use deepinsight.Http.Headers.{add_headers, own_headers}
use deepinsight.Http.Client.{Client}
use deepinsight.Http.Payload.{Decoded, decoded, undecodable, end_of_file, decode_response}
use deepinsight.Http.Fetch.{
  Answer, assertion_error, not_https, invalid_header, success, from_factory, status_error, attempts,
  rounds, get_text,
}
use deepinsight.Http.Conversation.{
  IsAnswer, succeeded, refused, lost, bad_retry_after, IsConversation, rounds-IsConversation,
}

module _ (w : World) (c : Client) (url accept : String) (extra : List (String × String))
    (has_factory : Bool) where
  -- A call of get_text with an HTTPS address and admitted headers makes between one request and
  -- the configured number; every reply before the last is no reply or a retryable status; its
  -- answer is that of the last reply: the decoded body of a success, the error of another status
  -- if that status is not retryable or the attempts are used up, the error of the transport if
  -- they are used up, and otherwise the ValueError of a Retry-After header that float() refuses.
  pub get_text-IsConversation :
      (headers : List (String × String)) (s : Session)
      → starts_with url "https://" ≡ true
      → add_headers (own_headers c.user_agent accept) extra ≡ some headers
      → let (answer, s') = get_text w c url accept extra has_factory s in
        IsConversation w c has_factory (attempts c) 0 s s' answer
  unfolding get_text rounds
  get_text-IsConversation headers s e h =
      rw (e, h)
        (rounds-IsConversation w c has_factory (record { url = url; headers = headers })
          (attempts c) 0 s (omega arith) (omega arith))

  success-not_assertion : (d : Decoded) → success d ≢ assertion_error
  success-not_assertion (decoded body) e = cc
  success-not_assertion undecodable e = cc
  success-not_assertion end_of_file e = cc

  from_factory-not_assertion : (n : ℕ) (d : Decoded) → from_factory n d ≢ assertion_error
  from_factory-not_assertion n (decoded body) e = cc
  from_factory-not_assertion n undecodable e = cc
  from_factory-not_assertion n end_of_file e = cc

  status_error-not_assertion :
      (b : Bool) (r : ProviderHttpResponse) → status_error w b r ≢ assertion_error
  unfolding status_error decode_response
  status_error-not_assertion true r e = from_factory-not_assertion _ _ e
  status_error-not_assertion false r e = cc

  IsAnswer-not_assertion :
      (bound made : ℕ) (reply : Reply) (answer : Answer)
      → IsAnswer w has_factory bound made reply answer
      → answer ≢ assertion_error
  IsAnswer-not_assertion bound made reply answer (succeeded r _ _ same) e =
      success-not_assertion (decode_response w r) (sym same ∙ e)
  IsAnswer-not_assertion bound made reply answer (refused r _ _ _ same) e =
      status_error-not_assertion has_factory r (sym same ∙ e)
  IsAnswer-not_assertion bound made reply answer (lost _ _ same) e = cc
  IsAnswer-not_assertion bound made reply answer (bad_retry_after _ _ _ same) e = cc

  -- The requests of a call, one for each reply that it adds to the log, and its counters.
  pub record IsBounded (s s' : Session) (answer : Answer) : Type 0 where
    pub made : List Reply
    pub sends : replies s'.events ≡ made ++ replies s.events
    pub at_most : length made ≤ c.max_retries + 1
    pub requests : s'.request_count ≡ s.request_count + length made
    pub retries : s'.retry_count ≡ s.retry_count + (length made - 1)
    pub unchanged : (1 ≤ length made) ⊎ (s' ≡ s)
    pub ends : answer ≢ assertion_error

  conversation-IsBounded :
      (s s' : Session) (answer : Answer)
      → IsConversation w c has_factory (attempts c) 0 s s' answer
      → IsBounded s s' answer
  conversation-IsBounded s s' answer k = record {
    made = k.final ∷ k.earlier;
    sends = k.said;
    at_most = k.bounded;
    requests = k.requests;
    retries = omega (arith, k.retries);
    unchanged = inl (omega arith);
    ends = IsAnswer-not_assertion _ _ k.final answer k.answers;
  }

  refusal-IsBounded :
      (s : Session) (answer : Answer) → answer ≢ assertion_error → IsBounded s s answer
  refusal-IsBounded s answer h = record {
    made = [];
    sends = refl;
    at_most = omega arith;
    requests = omega arith;
    retries = omega arith;
    unchanged = inr refl;
    ends = h;
  }

  -- Every call of get_text ends with an answer other than the AssertionError after its loop; the
  -- requests that it sends, which are those that it adds to the log of events, are at most
  -- max_retries + 1; their number is added to request_count, and that of all but the first to
  -- retry_count; and a call that sends none changes nothing.
  pub get_text-IsBounded :
      (s : Session)
      → let (answer, s') = get_text w c url accept extra has_factory s in IsBounded s s' answer
  unfolding get_text rounds
  get_text-IsBounded s = elim (Bool-cases (starts_with url "https://")) [
    | inr bad ↦ rw bad (refusal-IsBounded s not_https (λ e. cc))
    | inl ok ↦ elim (Option-cases (add_headers (own_headers c.user_agent accept) extra)) [
      | inl bad ↦ rw (ok, bad) (refusal-IsBounded s invalid_header (λ e. cc))
      | inr (headers, h) ↦ conversation-IsBounded s _ _ (get_text-IsConversation headers s ok h)
    ]
  ]
