-- ===== src/Http/Keeping.antt =====
-- A property of sessions that every request and every sleep keeps is kept by the whole call.
use deepinsight.Prelude.{
  ℕ, zero, suc, ◌+◌, inl, inr, String, Bool, List, starts_with, Bool-cases, Option-cases, ◌==◌,
}
use deepinsight.Http.World.{Request, World, Session}
use deepinsight.Http.Headers.{add_headers, own_headers}
use deepinsight.Http.Client.{Client, sleep_before_retry}
use deepinsight.Http.Fetch.{attempts, verdict, send, rounds, get_text}
use deepinsight.Http.Steps.{IsSleep, sleep_before_retry-IsSleep}

-- `P n s` is the property with `n` rounds left; a round is a request, and a sleep if it is not the last.
module _ (w : World) (c : Client) (P : ℕ → Session → Type 0)
    (ending : (n : ℕ) (s : Session) → P n s → P 0 s)
    (sending : (request : Request) (attempt n : ℕ) (s : Session)
      → P (suc n) s
      → (P 0 (send w c request attempt s).1)
        × ((s' : Session) → IsSleep w c (send w c request attempt s).1 s' → P n s')) where
  pub rounds_keep :
      (has_factory : Bool) (request : Request) (left attempt : ℕ) (s : Session)
      → P left s
      → P 0 (rounds w c has_factory request left attempt s).1
  unfolding rounds
  rounds_keep has_factory request zero attempt s p = p
  rounds_keep has_factory request (suc left) attempt s p =
      let (reply, s1) = send w c request attempt s in
      let (stop, go) = sending request attempt left s p in
      elim (Option-cases (verdict w has_factory (attempts c) ((attempt + 1) == attempts c) reply)) [
        | inr (answer, e) ↦ rw e stop
        | inl e ↦ elim (Option-cases (sleep_before_retry w c attempt reply s1)) [
          | inl bad ↦ rw (e, bad) stop
          | inr (s2, slept) ↦
              rw (e, slept)
                (rounds_keep has_factory request left (suc attempt) s2
                  (go s2 (sleep_before_retry-IsSleep w c attempt reply s1 s2 slept)))
        ]
      ]

  pub get_text_keeps :
      (url accept : String) (extra : List (String × String)) (has_factory : Bool) (s : Session)
      → P (attempts c) s
      → P 0 (get_text w c url accept extra has_factory s).1
  unfolding get_text rounds
  get_text_keeps url accept extra has_factory s p = elim (Bool-cases (starts_with url "https://")) [
    | inr bad ↦ rw bad (ending (attempts c) s p)
    | inl ok ↦ elim (Option-cases (add_headers (own_headers c.user_agent accept) extra)) [
      | inl bad ↦ rw (ok, bad) (ending (attempts c) s p)
      | inr (headers, h) ↦ rw (ok, h) (rounds_keep has_factory _ (attempts c) 0 s p)
    ]
  ]
