-- ===== src/Http/World.antt =====
-- The requests and responses of adapters/http.py, and what the client does to the outside world: it
-- sends, reads two clocks and sleeps. Every effect is an event, and the world answers by the events
-- so far. A time is a count of ticks, a fixed fraction of a second.
use deepinsight.Prelude.{ℕ, String, Option, List, [], ◌∷◌}

pub record ProviderHttpResponse : Type 0 where
  pub status_code : ℕ
  pub headers : List (String × String)
  pub body : List ℕ

pub record Request : Type 0 where
  pub url : String
  pub headers : List (String × String)

-- `none` stands for a URLError, a TimeoutError or an OSError of the transport. Any other exception of a
-- transport passes through `get_text` and is left out.
abbrev pub Reply : Type 0
Reply = Option ProviderHttpResponse

pub data Event : Type 0 where
  sent : Request → Reply → Event
  clock_read : ℕ → Event
  wall_read : ℕ → Event
  slept : ℕ → Event

-- What `gzip.decompress` and `zlib.decompress` do: a gzip stream cut short is an EOFError, which is
-- no OSError.
pub data Unpacked : Type 0 where
  unpacked : List ℕ → Unpacked
  corrupt : Unpacked
  cut_short : Unpacked

-- The events are the newest first.
pub record World : Type 0 where
  pub send : Request → (timeout : ℕ) → List Event → Reply
  pub clock : List Event → ℕ
  pub wall_clock : List Event → ℕ
  pub gunzip : List ℕ → Unpacked
  -- `none` stands for a zlib.error.
  pub inflate : List ℕ → Option (List ℕ)
  pub inflate_raw : List ℕ → Option (List ℕ)
  -- UTF-8 with the replacement character for what is no UTF-8.
  pub decode_utf8 : List ℕ → String
  -- `float(text)` in ticks, `none` for a ValueError; a negative number, or NaN, is zero.
  pub read_float : List ℕ → Option ℕ
  -- The ticks of a second.
  pub second : ℕ

-- The mutable fields of a client, beside the events.
pub record Session : Type 0 where
  pub last_request_at : Option ℕ
  pub request_count : ℕ
  pub retry_count : ℕ
  pub events : List Event

abbrev pub log : Event → Session → Session
log e s = record s { events = e ∷ s.events }

-- The replies of the events, the newest first.
unfoldable pub replies : List Event → List Reply
replies [] = []
replies (sent request reply ∷ events) = reply ∷ replies events
replies (clock_read t ∷ events) = replies events
replies (wall_read t ∷ events) = replies events
replies (slept d ∷ events) = replies events
