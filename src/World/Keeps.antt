-- ===== src/World/Keeps.antt =====
-- Code that leaves the tracked TAP state and the socket alone, whatever its result.
use jtag_remote_server.Base.{
  Bool, true, false, Option, none, some, ◌≡◌, refl, subst, ◌⊎◌, inl, inr, ℕ, List, if◌then◌else◌,
}
use jtag_remote_server.Tap.{JtagState}
use jtag_remote_server.World.{World, Net, M, pure, check, or_fail, ◌>>=◌, ◌>>◌}

-- The socket and its buffer, and these with the tracked state.
abbrev pub Outside : Type 0
Outside = Net × List ℕ × ℕ × ℕ

abbrev pub outside : World → Outside
outside w = (w.net, w.buffer, w.buffer_begin, w.buffer_end)

abbrev pub View : Type 0
View = JtagState × Outside

abbrev pub view : World → View
view w = (w.state, outside w)

-- What is left behind, if the code returns, shows `s`.
abbrev pub Ends : {A : Type 0} → View → Option (A × World) → Type 0
Ends s none = Unit
Ends s (some (a, w)) = view w ≡ s

abbrev pub KeepsState : {A : Type 0} → M A → Type 0
KeepsState m = (w : World) → Ends (view w) (m w)

pub Ends->>= :
    {A B : Type 0} (m : M A) (f : A → M B) (s t : View) (w : World)
    → Ends s (m w)
    → ((a : A) (w' : World) → view w' ≡ s → Ends t (f a w'))
    → Ends t ((m >>= f) w)
Ends->>= {A} {B} m f s t w first second = go (m w) first
  where
    go : (r : Option (A × World)) → Ends s r → Ends t (((λ (v : World). r) >>= f) w)
    go none e = tt
    go (some (a, w')) e = second a w' e

pub KeepsState->>= :
    {A B : Type 0} (m : M A) (f : A → M B)
    → KeepsState m
    → ((a : A) → KeepsState (f a))
    → KeepsState (m >>= f)
KeepsState->>= m f keep rest w =
    Ends->>= m f (view w) (view w) w (keep w) (λ a w' e. subst (λ s. Ends s (f a w')) e (rest a w'))

pub KeepsState->> :
    {B : Type 0} (m : M (Unit {0})) (k : M B) → KeepsState m → KeepsState k → KeepsState (m >> k)
KeepsState->> m k keep rest = KeepsState->>= m (λ u. k) keep (λ u. rest)

pub KeepsState-pure : {A : Type 0} (a : A) → KeepsState (pure a)
KeepsState-pure a w = refl

pub KeepsState-check : (b : Bool) → KeepsState (check b)
KeepsState-check true w = refl
KeepsState-check false w = tt

pub Ends-if :
    {A : Type 0} (s : View) (b : Bool) (x y : Option (A × World))
    → Ends s x
    → Ends s y
    → Ends s (if b then x else y)
Ends-if s true x y p q = p
Ends-if s false x y p q = q

pub KeepsState-if :
    {A : Type 0} (b : Bool) (m k : M A)
    → KeepsState m
    → KeepsState k
    → KeepsState (if b then m else k)
KeepsState-if true m k p q = p
KeepsState-if false m k p q = q

pub KeepsState-or_fail : (m k : M Bool) → KeepsState m → KeepsState k → KeepsState (or_fail m k)
KeepsState-or_fail m k keep rest =
    KeepsState->>= m (λ b. if b then k else pure false) keep
      (λ b. KeepsState-if b k (pure false) rest (KeepsState-pure false))

-- As a statement about one run.
pub KeepsState-run :
    {A : Type 0} (m : M A) (w w' : World) (a : A)
    → KeepsState m
    → m w ≡ some (a, w')
    → view w' ≡ view w
KeepsState-run m w w' a keep e = subst (λ r. Ends (view w) r) e (keep w)

-- A success shows `t`, a failure `s` still or `t` already.
abbrev pub Reaches : View → View → Option (Bool × World) → Type 0
Reaches s t none = Unit
Reaches s t (some (false, w)) = (view w ≡ s) ⊎ (view w ≡ t)
Reaches s t (some (true, w)) = view w ≡ t

pub Reaches-of_Ends : (s t : View) (r : Option (Bool × World)) → Ends t r → Reaches s t r
Reaches-of_Ends s t none e = tt
Reaches-of_Ends s t (some (false, w)) e = inr e
Reaches-of_Ends s t (some (true, w)) e = e

pub Reaches-or_fail :
    (m k : M Bool) (s t : View) (w : World)
    → Ends s (m w)
    → ((w' : World) → view w' ≡ s → Reaches s t (k w'))
    → Reaches s t (or_fail m k w)
Reaches-or_fail m k s t w first second = go (m w) first
  where
    go : (r : Option (Bool × World)) → Ends s r → Reaches s t (or_fail (λ (v : World). r) k w)
    go none e = tt
    go (some (false, w')) e = inl e
    go (some (true, w')) e = second w' e

pub Reaches-run :
    (m : M Bool) (w w' : World) (s t : View)
    → Reaches s t (m w)
    → m w ≡ some (true, w')
    → view w' ≡ t
Reaches-run m w w' s t reaches e = subst (λ r. Reaches s t r) e reaches

pub Reaches-fails :
    (m : M Bool) (w w' : World) (s t : View)
    → Reaches s t (m w)
    → m w ≡ some (false, w')
    → (view w' ≡ s) ⊎ (view w' ≡ t)
Reaches-fails m w w' s t reaches e = subst (λ r. Reaches s t r) e reaches
