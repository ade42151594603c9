-- ===== src/Aptly/Client/Keeps.antt =====
-- What a request of the client keeps: every method sends one request, so a predicate on what is
-- outside that survives the reply to that request survives the method, however the reply parses.
use aptly_gui.Json.{Json}
use aptly_gui.Exec.{Result, ok, raised, outcome, lift, pure, ◌>>=◌}
use aptly_gui.Exec.Triple.{Triple, Post, Triple-bind, Triple-lift, Triple-pure}
use aptly_gui.Aptly.Client.{Request, Outside, read_reply, send}

-- `P` survives the reply to a request.
pub record Survives (o : Outside) (P : o.State → Type 0) (r : Request) : Type 0 where
  pub at : (w : o.State) → P w → P (o.respond r w).1

after_reply :
    {S A : Type 0} (P : S → Type 0) (r : Result A) (w : S)
    → P w
    → Post (λ _. P) (λ _. P) (outcome r) w
after_reply P (ok a) w h = h
after_reply P (raised e) w h = h

module _ {o : Outside} {P : o.State → Type 0} where
  pub Triple-send : (r : Request) → Survives o P r → Triple P (send o r) (λ _. P) (λ _. P)
  unfolding send
  Triple-send r k = record {
    at = λ w h. after_reply P (read_reply o (o.respond r w).0) (o.respond r w).1 (k.at w h);
  }

  pub Triple-ask_reply :
      {A : Type 0} (r : Request) (parse : Json → Result A)
      → Survives o P r
      → Triple P (send o r >>= λ payload. lift (parse payload)) (λ _. P) (λ _. P)
  Triple-ask_reply r parse k =
      Triple-bind (send o r) _ (Triple-send r k)
        λ payload. Triple-lift (parse payload) (λ _ _ _ h. h) (λ _ _ _ h. h)

  pub Triple-tell :
      {A : Type 0} (r : Request) (f : Json → A)
      → Survives o P r
      → Triple P (send o r >>= λ payload. pure (f payload)) (λ _. P) (λ _. P)
  Triple-tell r f k =
      Triple-bind (send o r) _ (Triple-send r k) λ payload. Triple-pure (f payload) (λ _ h. h)
