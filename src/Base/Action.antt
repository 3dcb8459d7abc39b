-- ===== src/Base/Action.antt =====
-- A call that may fail and that changes the world: Go's `(value, error)` results with the state
-- passed on, and a rule for each way to put calls together.

pub data Result (E A : Type 0) : Type 0 where
  ok : A → Result E A
  err : E → Result E A

-- The world comes back after an error too, since what was done stays done.
abbrev pub Action : Type 0 → Type 0 → Type 0 → Type 0
Action W E A = W → Result E A × W

module _ {W E A : Type 0} where
  abbrev pub pure : A → Action W E A
  pure a w = (ok a, w)

  abbrev pub raise : E → Action W E A
  raise e w = (err e, w)

  -- `if err != nil { return nil, f(err) }`
  abbrev pub map_result : (E → E) → Result E A × W → Result E A × W
  map_result f (ok a, w) = (ok a, w)
  map_result f (err e, w) = (err (f e), w)

  abbrev pub map_error : (E → E) → Action W E A → Action W E A
  map_error f m w = map_result f (m w)

infixl 5 ◌>>=◌ ◌>>◌
abbrev pub and_then : {W E A B : Type 0} → (A → Action W E B) → Result E A × W → Result E B × W
and_then f (ok a, w) = f a w
and_then f (err e, w) = (err e, w)

abbrev pub ◌>>=◌ : {W E A B : Type 0} → Action W E A → (A → Action W E B) → Action W E B
◌>>=◌ m f w = and_then f (m w)

abbrev pub ◌>>◌ : {W E A B : Type 0} → Action W E A → Action W E B → Action W E B
m >> k = m >>= λ _. k

module _ {W E A : Type 0} where
  -- What holds after a call, by how it ended.
  abbrev pub Post : (A → W → Type 0) → (E → W → Type 0) → Result E A × W → Type 0
  Post Q F (ok a, w) = Q a w
  Post Q F (err e, w) = F e w

-- From a world with `P` the call ends in `Q` with a value, or in `F` with an error.
pub record Triple {W E A : Type 0} (P : W → Type 0) (m : Action W E A) (Q : A → W → Type 0)
    (F : E → W → Type 0) : Type 0 where
  pub run : (w : W) → P w → Post Q F (m w)

module _ {W E A : Type 0} {P : W → Type 0} {Q : A → W → Type 0} {F : E → W → Type 0} where
  pub Triple-weaken :
      {R : A → W → Type 0} {G : E → W → Type 0} {m : Action W E A}
      → Triple P m Q F
      → ((a : A) (w : W) → Q a w → R a w)
      → ((e : E) (w : W) → F e w → G e w)
      → Triple P m R G
  Triple-weaken {R} {G} {m} h q f = record { run = λ w p. go (m w) (h.run w p) }
    where
      go : (x : Result E A × W) → Post Q F x → Post R G x
      go (ok a, w) h = q a w h
      go (err e, w) h = f e w h

  pub map_error-Triple :
      {G : E → W → Type 0} (f : E → E) {m : Action W E A}
      → Triple P m Q F
      → ((e : E) (w : W) → F e w → G (f e) w)
      → Triple P (map_error f m) Q G
  map_error-Triple {G} f {m} h g = record { run = λ w p. go (m w) (h.run w p) }
    where
      go : (x : Result E A × W) → Post Q F x → Post Q G (map_result f x)
      go (ok a, w') q = q
      go (err e, w') q = g e w' q

  pub >>=-Triple :
      {B : Type 0} {R : B → W → Type 0} {m : Action W E A} {f : A → Action W E B}
      → Triple P m Q F
      → ((a : A) → Triple (Q a) (f a) R F)
      → Triple P (m >>= f) R F
  >>=-Triple {B} {R} {m} {f} h k = record { run = λ w p. go (m w) (h.run w p) }
    where
      go : (x : Result E A × W) → Post Q F x → Post R F (and_then f x)
      go (ok a, w') q = (k a).run w' q
      go (err e, w') q = q

-- A call that only computes keeps what holds.
pub pure-Triple :
    {W E A : Type 0} {P : W → Type 0} {Q : A → W → Type 0} {F : E → W → Type 0} (a : A)
    → ((w : W) → P w → Q a w)
    → Triple {E = E} P (pure a) Q F
pure-Triple a h = record { run = h }

pub raise-Triple :
    {W E A : Type 0} {P : W → Type 0} {Q : A → W → Type 0} {F : E → W → Type 0} (e : E)
    → ((w : W) → P w → F e w)
    → Triple P (raise e) Q F
raise-Triple e h = record { run = h }

-- A fact that does not speak of the world is assumed for what follows.
pub given-Triple :
    {W E A Fact : Type 0} {P : W → Type 0} {m : Action W E A} {Q : A → W → Type 0}
    {F : E → W → Type 0}
    → (Fact → Triple P m Q F)
    → Triple (λ w. P w × Fact) m Q F
given-Triple h = record { run = λ w p. (h p.1).run w p.0 }
