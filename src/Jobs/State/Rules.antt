-- ===== src/Jobs/State/Rules.antt =====
-- The rules of Exec/Triple for the runner: a predicate on what is outside beside one on what the
-- runner holds.
use aptly_gui.Prelude.{◌≡◌, refl}
use aptly_gui.Exec.{Exc, Exec, Outcome, returned, threw, stuck}
use aptly_gui.Exec.Triple.{Triple, Post, Triple-gets, Triple-modify}
use aptly_gui.Aptly.Client.{Outside}
use aptly_gui.Jobs.State.{World, Local, ask, change, look, clock}

pub record Both {W : Type 0} (P : W → Type 0) (T : Local → Type 0) (s : World W) : Type 0 where
  pub out : P s.outside
  pub own : T s.own

asked :
    {W A : Type 0} (T : Local → Type 0) (Q : A → W → Type 0) (R : Exc → W → Type 0) (r : Outcome A)
    (w : W) (l : Local)
    → T l
    → Post Q R r w
    → Post {S = World W} (λ a. Both (Q a) T) (λ e. Both (R e) T) r (record { outside = w; own = l })
asked T Q R (returned a) w l t h = record { out = h; own = t }
asked T Q R (threw e) w l t h = record { out = h; own = t }
asked T Q R stuck w l t h = h

module _ {W A : Type 0} {T : Local → Type 0} where
  pub Triple-ask :
      {P : W → Type 0} {Q : A → W → Type 0} {R : Exc → W → Type 0} (m : Exec W A)
      → Triple P m Q R
      → Triple (Both P T) (ask m) (λ a. Both (Q a) T) (λ e. Both (R e) T)
  unfolding ask
  Triple-ask {Q = Q} {R = R} m t = record {
    at = λ s h. asked T Q R (m s.outside).0 (m s.outside).1 s.own h.own (t.at s.outside h.out);
  }

module _ {W : Type 0} {P : W → Type 0} {T : Local → Type 0} {R : Exc → World W → Type 0} where
  pub Triple-change :
      {U : Local → Type 0} (f : Local → Local)
      → ((l : Local) → T l → U (f l))
      → Triple (Both P T) (change f) (λ _. Both P U) R
  unfolding change
  Triple-change f h = Triple-modify _ (λ s p. record { out = p.out; own = h s.own p.own })

  pub Triple-look :
      {A : Type 0} (f : Local → A)
      → Triple (Both P T) (look f) (λ a. Both P (λ l. (a ≡ f l) × T l)) R
  unfolding look
  Triple-look f = Triple-gets _ (λ s p. record { out = p.out; own = (refl, p.own) })

module _ (o : Outside) {P : o.State → Type 0} {T : Local → Type 0}
    {R : Exc → World o.State → Type 0} where
  pub Triple-clock : Triple (Both P T) (clock o) (λ _. Both P T) R
  unfolding clock
  Triple-clock = Triple-gets _ (λ s p. p)
