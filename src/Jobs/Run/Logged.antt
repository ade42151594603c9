-- ===== src/Jobs/Run/Logged.antt =====
-- An aptly that keeps a list of the requests it was sent, and answers as the one it stands for.
use mathlib.Core.Path.{subst}
use aptly_gui.Prelude.{
  ℕ, ◌<◌, ◌≡◌, refl, sym, ap, ◌∙◌, Option, none, some, List, [], ◌∷◌, ◌++◌, arith,
}
use aptly_gui.Text.{codes, decimal}
use aptly_gui.Json.{Json, get}
use aptly_gui.Exec.{Outcome, returned, threw, stuck, outcome, continue, lift, ◌>>=◌}
use aptly_gui.Aptly.Models.{parse_task}
use aptly_gui.Aptly.Client.{
  Outside, Request, Response, Reply, response, timed_out, transport_error, py_str, payload_message,
  decoded_message, error_message, read_reply, send,
}
use aptly_gui.Aptly.Client.Requests.{get_task}
use aptly_gui.Aptly.Client.Bodies.{get_request}
use aptly_gui.Jobs.Await.Patience.{Patience, after}

-- The same outside, with a list of the requests that it was sent, the latest first.
abbrev pub logged : Outside → Outside
logged o = record {
  State = List Request × o.State;
  respond = λ r w. let (reply, w') = o.respond r w.1 in (reply, (r ∷ w.0, w'));
  fetch = λ url w. let (reply, w') = o.fetch url w.1 in (reply, (w.0, w'));
  now = λ w. o.now w.1;
  sleep = λ w. (w.0, o.sleep w.1);
  show = o.show;
}

module _ (o : Outside) where
  after-logged :
      (rs : List Request) (w : (logged o).State) → (after (logged o) rs w).1 ≡ after o rs w.1
  after-logged [] w = refl
  after-logged (r ∷ rs) w = ap (λ v. (o.respond r v).1) (after-logged rs w)

  py_str-logged : (v : Json) → py_str (logged o) v ≡ py_str o v
  py_str-logged v = ground arith

  payload_message-logged :
      (payload : Json) (e : Option Json)
      → payload_message (logged o) payload e ≡ payload_message o payload e
  unfolding payload_message
  payload_message-logged payload none = py_str-logged payload
  payload_message-logged payload (some e) = py_str-logged e

  decoded_message-logged :
      (r : Response) (d : Option Json) → decoded_message (logged o) r d ≡ decoded_message o r d
  unfolding decoded_message
  decoded_message-logged r none = refl
  decoded_message-logged r (some payload) =
      payload_message-logged payload (get (codes "error") payload)

  read_reply-logged : (reply : Reply) → read_reply (logged o) reply ≡ read_reply o reply
  unfolding read_reply error_message
  read_reply-logged (response r) = rw (decoded_message-logged r r.decoded) refl
  read_reply-logged (timed_out class message) = refl
  read_reply-logged (transport_error class message) = refl

  parsed :
      {S S' : Type 0} (r : Outcome Json) (s : S) (s' : S')
      → (continue r (λ payload. lift (parse_task payload)) s).0
        ≡ (continue r (λ payload. lift (parse_task payload)) s').0
  unfolding lift
  parsed (returned payload) s s' = refl
  parsed (threw e) s s' = refl
  parsed stuck s s' = refl

  kept :
      {S : Type 0} (r : Outcome Json) (s : S)
      → (continue r (λ payload. lift (parse_task payload)) s).1 ≡ s
  unfolding lift
  kept (returned payload) s = refl
  kept (threw e) s = refl
  kept stuck s = refl

  module _ (id : ℕ) (w : (logged o).State) where
    abbrev answer : Reply × o.State
    answer = o.respond (get_request (codes "/api/tasks/" ++ decimal id)) w.1

    get_task-logged : (get_task (logged o) id w).0 ≡ (get_task o id w.1).0
    unfolding get_task send ◌>>=◌
    get_task-logged =
        ap
          (λ r.
            (continue {S = (logged o).State} (outcome r) (λ payload. lift (parse_task payload))
              (get_request (codes "/api/tasks/" ++ decimal id) ∷ w.0, answer.1)).0)
          (read_reply-logged answer.0)
        ∙ parsed (outcome (read_reply o answer.0)) _ _

    get_task-goes_on : (get_task (logged o) id w).1.1 ≡ (get_task o id w.1).1
    unfolding get_task send ◌>>=◌
    get_task-goes_on =
        ap (λ (v : (logged o).State). v.1) (kept (outcome (read_reply (logged o) answer.0)) _)
        ∙ sym (kept (outcome (read_reply o answer.0)) _)

  pub logged-Patience : {fuel : ℕ} → Patience o fuel → Patience (logged o) fuel
  logged-Patience {fuel} p = record {
    left = λ id w. p.left id w.1;
    bounded = λ id w. p.bounded id w.1;
    falls = λ id w task rs found open_.
        subst (λ v. p.left id (o.sleep v) < p.left id w.1)
          (ap (λ v. after o rs v) (sym (get_task-goes_on id w))
            ∙ sym (after-logged rs (get_task (logged o) id w).1))
          (p.falls id w.1 task rs (sym (get_task-logged id w) ∙ found) open_);
  }
