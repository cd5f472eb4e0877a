-- ===== src/Http/Conversation.antt =====
-- The retry loop as a conversation: the replies that it asks for, and its answer.
use deepinsight.Prelude.{
  ℕ, zero, suc, ◌+◌, ◌-◌, ◌≤◌, ◌<◌, ◌≡◌, refl, sym, ap, subst, ◌∙◌, ◌⊎◌, inl, inr, Bool, true,
  false, not, ◌||◌, Option, none, some, List, [], ◌∷◌, ◌++◌, if◌then◌else◌, ◌==◌, ==_iff,
  Option-cases, arith, length, length-append, All, All-append,
}
use mathlib.Core.List.{append_assoc}
use deepinsight.Http.World.{ProviderHttpResponse, Request, Reply, World, Session, replies}
use deepinsight.Http.Client.{
  Client, value_error, retry_after_seconds, header_of, sleep_before_retry,
}
use deepinsight.Http.Payload.{decode_response}
use deepinsight.Http.Fetch.{
  Answer, attempts_failed, retry_after_error, is_success, is_retryable, success, status_error,
  verdict, attempts, send, rounds,
}
use deepinsight.Http.Steps.{
  IsSleep, IsSleep-IsQuiet, sleep_before_retry-IsSleep, IsSleep-IsQuiet,
  sleep_before_retry-value_error, IsSent, send-IsSent,
}

-- A reply after which the client may ask again: none at all, or a retryable status.
abbrev pub IsRetried : Reply → Type 0
IsRetried none = Unit
IsRetried (some r) = (is_success r.status_code ≡ false) × (is_retryable r.status_code ≡ true)

-- The answer to the last reply, that of request number `made`.
pub data IsAnswer (w : World) (has_factory : Bool) (bound made : ℕ) (reply : Reply)
    (answer : Answer) : Type 0 where
  succeeded :
      (r : ProviderHttpResponse)
      → reply ≡ some r
      → is_success r.status_code ≡ true
      → answer ≡ success (decode_response w r)
      → IsAnswer w has_factory bound made reply answer
  refused :
      (r : ProviderHttpResponse)
      → reply ≡ some r
      → is_success r.status_code ≡ false
      → (is_retryable r.status_code ≡ false) ⊎ (made ≡ bound)
      → answer ≡ status_error w has_factory r
      → IsAnswer w has_factory bound made reply answer
  lost :
      reply ≡ none
      → made ≡ bound
      → answer ≡ attempts_failed bound
      → IsAnswer w has_factory bound made reply answer
  bad_retry_after :
      IsRetried reply
      → made < bound
      → retry_after_seconds w (header_of reply "Retry-After") ≡ value_error
      → answer ≡ retry_after_error
      → IsAnswer w has_factory bound made reply answer

-- From `attempt` on, at most `left` requests.
pub record IsConversation (w : World) (c : Client) (has_factory : Bool) (left attempt : ℕ)
    (s s' : Session) (answer : Answer) : Type 0 where
  pub earlier : List Reply
  pub final : Reply
  pub said : replies s'.events ≡ final ∷ (earlier ++ replies s.events)
  pub retried : All IsRetried earlier
  pub bounded : suc (length earlier) ≤ left
  pub requests : s'.request_count ≡ s.request_count + suc (length earlier)
  pub retries : s'.retry_count + (1 - attempt) ≡ s.retry_count + suc (length earlier)
  pub answers : IsAnswer w has_factory (attempts c) (attempt + suc (length earlier)) final answer

module _ (a b : Answer) where
  -- The two tests of a reply, kept with what they choose.
  unfoldable tested : (t u : Bool) → Option Answer
  tested t u = if t then some a else if u then some b else none

  tested-some :
      (t u : Bool) (answer : Answer)
      → tested t u ≡ some answer
      → ((t ≡ true) × (answer ≡ a)) ⊎ ((t ≡ false) × (u ≡ true) × (answer ≡ b))
  unfolding tested
  tested-some true u answer e = inl (refl, cc)
  tested-some false true answer e = inr (refl, refl, cc)
  tested-some false false answer e = cc

  tested-none : (t u : Bool) → tested t u ≡ none → (t ≡ false) × (u ≡ false)
  unfolding tested
  tested-none true u e = cc
  tested-none false true e = cc
  tested-none false false e = (refl, refl)

never_or_last : (u last : Bool) → not u || last ≡ true → (u ≡ false) ⊎ (last ≡ true)
never_or_last false last e = inl refl
never_or_last true last e = inr e

again_and_more : (u last : Bool) → not u || last ≡ false → (u ≡ true) × (last ≡ false)
again_and_more false last e = cc
again_and_more true last e = (refl, e)

module _ (w : World) (c : Client) (has_factory : Bool) where
  verdict-IsAnswer :
      (last : Bool) (made : ℕ) (reply : Reply) (answer : Answer)
      → (last ≡ true → made ≡ attempts c)
      → verdict w has_factory (attempts c) last reply ≡ some answer
      → IsAnswer w has_factory (attempts c) made reply answer
  unfolding verdict tested
  verdict-IsAnswer true made none answer h e = lost refl (h refl) (cc)
  verdict-IsAnswer false made none answer h e = cc
  verdict-IsAnswer last made (some r) answer h e =
      elim (tested-some (success (decode_response w r)) (status_error w has_factory r) _ _ answer
        e) [
          | inl (ok, same) ↦ succeeded r refl ok same
          | inr (bad, stop, same) ↦ elim (never_or_last (is_retryable r.status_code) last stop) [
            | inl never ↦ refused r refl bad (inl never) same
            | inr ending ↦ refused r refl bad (inr (h ending)) same
          ]
        ]

  verdict-IsRetried :
      (last : Bool) (reply : Reply)
      → verdict w has_factory (attempts c) last reply ≡ none
      → IsRetried reply × (last ≡ false)
  unfolding verdict tested
  verdict-IsRetried true none e = cc
  verdict-IsRetried false none e = (tt, refl)
  verdict-IsRetried last (some r) e =
      let (bad, more) =
        tested-none (success (decode_response w r)) (status_error w has_factory r) _ _ e in
      let (again, here) = again_and_more (is_retryable r.status_code) last more in
      ((bad, again), here)

  module _ (request : Request) where
    -- One request, and an answer at once.
    at_once :
        (left attempt : ℕ) (reply : Reply) (s s' : Session) (answer : Answer)
        → IsSent w c attempt reply s s'
        → IsAnswer w has_factory (attempts c) (attempt + 1) reply answer
        → IsConversation w c has_factory (suc left) attempt s s' answer
    at_once left attempt reply s s' answer sent ans = record {
      earlier = [];
      final = reply;
      said = sent.one_reply;
      retried = tt;
      bounded = omega arith;
      requests = omega (arith, sent.requests);
      retries = omega (arith, sent.retries);
      answers = ans;
    }

    -- One request, a sleep, and the rest.
    and_again :
        (left attempt : ℕ) (reply : Reply) (s s1 s2 s' : Session) (answer : Answer)
        → IsSent w c attempt reply s s1
        → IsRetried reply
        → IsSleep w c s1 s2
        → IsConversation w c has_factory left (suc attempt) s2 s' answer
        → IsConversation w c has_factory (suc left) attempt s s' answer
    and_again left attempt reply s s1 s2 s' answer sent r sleep k =
        let q = IsSleep-IsQuiet w c s1 s2 sleep in
        let one_more = length-append k.earlier (reply ∷ []) in
        record {
          earlier = k.earlier ++ (reply ∷ []);
          final = k.final;
          said =
              k.said
              ∙ ap (λ rs. k.final ∷ (k.earlier ++ rs)) (q.same_replies ∙ sent.one_reply)
              ∙ ap (λ rs. k.final ∷ rs)
                  (sym (append_assoc k.earlier (reply ∷ []) (replies s.events)));
          retried = All-append IsRetried k.earlier (reply ∷ []) k.retried (r, tt);
          bounded = omega (arith, one_more, k.bounded);
          requests = omega (arith, one_more, k.requests, q.requests, sent.requests);
          retries = omega (arith, one_more, k.retries, q.retries, sent.retries);
          answers =
              subst (λ made. IsAnswer w has_factory (attempts c) made k.final answer)
                (omega (arith, one_more)) k.answers;
        }

    pub rounds-IsConversation :
        (left attempt : ℕ) (s : Session)
        → attempt + left ≡ attempts c
        → attempt < attempts c
        → let (answer, s') = rounds w c has_factory request left attempt s in
          IsConversation w c has_factory left attempt s s' answer
    unfolding rounds
    rounds-IsConversation zero attempt s h some_left = absurd (omega arith)
    rounds-IsConversation (suc left) attempt s h some_left =
        let (reply, s1) = send w c request attempt s in
        let sent = send-IsSent w c request attempt s in
        let last = (attempt + 1) == attempts c in
        elim (Option-cases (verdict w has_factory (attempts c) last reply)) [
          | inr (answer, e) ↦ rw e (
              at_once left attempt reply s s1 answer sent (
                verdict-IsAnswer last (attempt + 1) reply answer
                  (==_iff (attempt + 1) (attempts c)).0 e))
          | inl e ↦
              let (again, more) = verdict-IsRetried last reply e in
              let next : suc attempt < attempts c = ground (arith, more) in
              elim (Option-cases (sleep_before_retry w c attempt reply s1)) [
                | inl bad ↦
                    rw (e, bad)
                      (at_once left attempt reply s s1 retry_after_error sent (
                        bad_retry_after again (omega (arith, next))
                          (sleep_before_retry-value_error w c attempt reply s1 bad) refl))
                | inr (s2, slept) ↦
                    rw (e, slept)
                      (and_again left attempt reply s s1 s2 _ _ sent again
                        (sleep_before_retry-IsSleep w c attempt reply s1 s2 slept)
                        (rounds-IsConversation left (suc attempt) s2 (omega (arith, h)) next))
              ]
        ]
