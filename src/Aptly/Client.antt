-- ===== src/Aptly/Client.antt =====
-- src/aptly_gui/aptly/client.py: one method for each call of aptly's REST API.
-- What is outside the program (aptly behind httpx, the clock, the event loop's sleep) is a record
-- `Outside`: a state, the reply to each request, the passing of time.
pub mod Prefix
pub mod Requests
pub mod Keeps
pub mod Wait
pub mod Bodies
use aptly_gui.Prelude.{ℕ, Option, none, some, List, [], ◌∷◌, ◌++◌, leb, if◌then◌else◌}
use aptly_gui.Text.{Text, codes, truthy, decimal, strip}
use aptly_gui.Json.{Json, null, text, get}
use aptly_gui.Exec.{Exec, Result, ok, raised, outcome, aptly_error, http_error, value_error}
use aptly_gui.Aptly.Errors.{with_explanation}

pub data Method : Type 0 where
  get_method post put delete : Method

pub record Request : Type 0 where
  pub method : Method
  pub path : Text
  pub params : List (Text × Text)
  pub body : Option Json
  pub timeout : Option ℕ

-- `decoded` is what `response.json()` returns, none where it raises ValueError.
pub record Response : Type 0 where
  pub status_code : ℕ
  pub content : Text
  pub decoded : Option Json

pub data Reply : Type 0 where
  response : Response → Reply
  -- httpx.TimeoutException, by its class name and its text
  timed_out : Text → Text → Reply
  -- any other httpx.HTTPError
  transport_error : Text → Text → Reply

-- A moment in UTC: its seconds since the epoch, and its civil fields.
pub record Moment : Type 0 where
  pub epoch : ℕ
  pub year : ℕ
  pub month : ℕ
  pub day : ℕ
  pub hour : ℕ
  pub minute : ℕ

pub record Outside : Type 1 where
  pub State : Type 0
  pub respond : Request → State → Reply × State
  -- a GET of the published tree, following redirects
  pub fetch : Text → State → Reply × State
  -- datetime.now(UTC)
  pub now : State → Moment
  -- asyncio.sleep(poll_interval)
  pub sleep : State → State
  -- str() of a decoded JSON value that is no string
  pub show : Json → Text

abbrev or_status : ℕ → Text → Text
or_status status [] = codes "HTTP " ++ decimal status
or_status status (c ∷ t) = c ∷ t

module _ (o : Outside) where
  abbrev pub py_str : Json → Text
  py_str (text t) = t
  py_str v = o.show v

  unfoldable pub payload_message : Json → Option Json → Text
  payload_message payload (some e) = py_str e
  payload_message payload none = py_str payload

  unfoldable pub decoded_message : Response → Option Json → Text
  unfolding payload_message
  decoded_message r none = or_status r.status_code (strip r.content)
  decoded_message r (some payload) = payload_message payload (get (codes "error") payload)

  unfoldable pub error_message : Response → Text
  unfolding decoded_message
  error_message r = decoded_message r r.decoded

  abbrev decoded_or_raise : Option Json → Result Json
  decoded_or_raise none = raised (value_error (codes "Expecting value"))
  decoded_or_raise (some payload) = ok payload

  -- The body of a good response: none where it is empty.
  unfoldable pub read_reply : Reply → Result Json
  read_reply (timed_out class message) =
      raised (aptly_error (with_explanation (class ++ (codes ": " ++ message))) none)
  read_reply (transport_error class message) = raised (http_error class message)
  read_reply (response r) =
      if leb 400 r.status_code
      then raised (aptly_error (with_explanation (error_message r)) (some r.status_code))
      else if truthy r.content
      then decoded_or_raise r.decoded
      else ok null

  unfoldable pub send : Request → Exec o.State Json
  send r w = let (reply, w') = o.respond r w in (outcome (read_reply reply), w')
