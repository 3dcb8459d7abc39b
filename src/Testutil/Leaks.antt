-- ===== src/Testutil/Leaks.antt =====
-- What the test suite leaves open.
use internal_transfers_syste.Base.{
  ◌≡◌, refl, ◌∙◌, ◌⊎◌, inl, inr, String, Option, none, some, List, ◌∷◌,
}
use internal_transfers_syste.Base.Action.{Result, ok, err, Triple, Post}
use internal_transfers_syste.Models.{Error, errorf}
use internal_transfers_syste.Schema.{Statement}
use internal_transfers_syste.Testutil.{
  ContainerOptions, Docker, container_options, test_schema, TestContainerSuite, teardown, suite_of,
  migrated, pooled, located, started, new_test_container_suite, run_migrations,
}

-- What is open: containers that run and pools with connections.
pub data Handle (K : Docker) : Type 0 where
  running : K.Container → Handle K
  connected : K.Pool → Handle K

-- As testcontainers-go and pgx document it: `Run` and `New` open one thing or fail, `Terminate`, if it
-- returns no error, and `Close` end it, and the other calls open and end nothing. A `Run` that fails
-- may have left a container behind, which it returns.
pub record IsDocumented (K : Docker) : Type 0 where
  pub opened : K.World → List (Handle K)
  pub run-Triple :
      (options : ContainerOptions) (l : List (Handle K))
      → Triple
          (λ w. opened w ≡ l)
          (K.run options)
          (λ c w. opened w ≡ running c ∷ l)
          (λ (e, left) w.
            ((left ≡ none) × (opened w ≡ l))
            ⊎ ((c : K.Container) × (left ≡ some c) × (opened w ≡ running c ∷ l)))
  pub connection_string_lem :
      (c : K.Container) (args : List String) (w : K.World)
      → opened (K.connection_string c args w).1 ≡ opened w
  pub new_pool-Triple :
      (dsn : String) (l : List (Handle K))
      → Triple
          (λ w. opened w ≡ l)
          (K.new_pool dsn)
          (λ p w. opened w ≡ connected p ∷ l)
          (λ _ w. opened w ≡ l)
  pub exec_lem :
      (p : K.Pool) (statements : List Statement) (w : K.World)
      → opened (K.exec p statements w).1 ≡ opened w
  pub terminate_lem :
      (c : K.Container) (w : K.World) (l : List (Handle K))
      → opened w ≡ running c ∷ l
      → (K.terminate c w).0 ≡ none
      → opened (K.terminate c w).1 ≡ l
  pub close_lem :
      (p : K.Pool) (w : K.World) (l : List (Handle K))
      → opened w ≡ connected p ∷ l
      → opened (K.close p w) ≡ l

module _ {K : Docker} (law : IsDocumented K)
    (terminates : (c : K.Container) (w : K.World) → (K.terminate c w).0 ≡ none)
    (l : List (Handle K)) where
  open K use {World, Container, Pool}
  open law use {opened}

  -- Both are open, and `Teardown` ends both.
  abbrev pub IsUp : TestContainerSuite K → World → Type 0
  IsUp suite w =
      (c : Container) × (p : Pool) × (suite ≡ suite_of K c p)
      × (opened w ≡ connected p ∷ running c ∷ l)
      × (opened (teardown K suite w) ≡ l)

  -- Nothing is left open, or the container that a failed `Run` returned.
  abbrev pub LeftBehind : Error → World → Type 0
  LeftBehind e w =
      (opened w ≡ l)
      ⊎ ((c : Container) × (f : Error) × (e ≡ errorf "start container: " f)
          × (opened w ≡ running c ∷ l))

  abbrev Ended : Result Error (TestContainerSuite K) × World → Type 0
  Ended = Post IsUp LeftBehind

  torn_down :
      (c : Container) (p : Pool) (w : World)
      → opened w ≡ connected p ∷ running c ∷ l
      → opened (teardown K (suite_of K c p) w) ≡ l
  unfolding teardown
  torn_down c p w h =
      law.terminate_lem c (K.close p w) l (law.close_lem p w (running c ∷ l) h) (terminates c _)

  migrated-Ended :
      (c : Container) (p : Pool) (x : Option Error × World)
      → opened x.1 ≡ connected p ∷ running c ∷ l
      → Ended (migrated K c p x)
  migrated-Ended c p (none, w) h = (c, p, refl, h, torn_down c p w h)
  migrated-Ended c p (some e, w) h = inl (torn_down c p w h)

  pooled-Ended :
      (c : Container) (x : Result Error Pool × World)
      → Post (λ p w. opened w ≡ connected p ∷ running c ∷ l) (λ _ w. opened w ≡ running c ∷ l) x
      → Ended (pooled K c x)
  unfolding run_migrations
  pooled-Ended c (ok p, w) h = migrated-Ended c p _ (law.exec_lem p test_schema w ∙ h)
  pooled-Ended c (err e, w) h = inl (law.terminate_lem c w l h (terminates c w))

  located-Ended :
      (c : Container) (x : Result Error String × World)
      → opened x.1 ≡ running c ∷ l
      → Ended (located K c x)
  located-Ended c (ok dsn, w) h =
      pooled-Ended c (K.new_pool dsn w) ((law.new_pool-Triple dsn (running c ∷ l)).run w h)
  located-Ended c (err e, w) h = inl (law.terminate_lem c w l h (terminates c w))

  started-Ended :
      (x : Result (Error × Option Container) Container × World)
      → Post
          (λ c w. opened w ≡ running c ∷ l)
          (λ (e, left) w.
            ((left ≡ none) × (opened w ≡ l))
            ⊎ ((c : Container) × (left ≡ some c) × (opened w ≡ running c ∷ l)))
          x
      → Ended (started K x)
  started-Ended (ok c, w) h = located-Ended c _ (law.connection_string_lem c _ w ∙ h)
  started-Ended (err (e, left), w) (inl (_, same)) = inl same
  started-Ended (err (e, left), w) (inr (c, _, h)) = inr (c, e, refl, h)

  -- If Docker and pgx do what they document and `Terminate` never fails: a suite that is made has one
  -- new container and one new pool open, which `Teardown` both ends; and if no suite is made, then all
  -- that was opened is ended again, unless `Run` failed and left a container behind, which stays.
  pub new_test_container_suite-Triple :
      Triple (λ w. opened w ≡ l) (new_test_container_suite K) IsUp LeftBehind
  unfolding new_test_container_suite
  new_test_container_suite-Triple = record {
    run = λ w h. started-Ended _ ((law.run-Triple container_options l).run w h);
  }
