-- ===== src/Transfers/Ends.antt =====
-- What holds after an action that may fail or be ended: rules for its parts.
use mira_bridge.Base.{
  Bool, true, false, List, ◌≡◌, refl, if◌then◌else◌, ok, err, Result, continue, ◌>>◌, throw, pure,
}
use mira_bridge.Protocol.Errors.{Thrown}
use mira_bridge.State.Rows.{Database}
use mira_bridge.Transfers.{
  Entry, World, Action, Failure, raised, crashed, Outcome, succeeds, fails, crashes, perform, on_db,
  catch_failure, on_outcome, next, later, settled, on_failure,
}

-- A result and the world after it: with a value the first predicate holds, with a failure the second.
unfoldable pub Ends :
    {A : Type 0} → (A → World → Type 0) → (World → Type 0) → Result Failure A × World → Type 0
Ends Q E r = elim r.0 [ ok a ↦ Q a r.1 | err e ↦ E r.1 ]

module _ {A B : Type 0} (Q : A → World → Type 0) (R : B → World → Type 0) (E : World → Type 0) where
  pub continue-Ends :
      (f : A → Action B)
      → (r : Result Failure A) (w : World) → Ends Q E (r, w)
      → ((a : A) (v : World) → Q a v → Ends R E (f a v))
      → Ends R E (continue f r w)
  unfolding Ends
  continue-Ends f (ok a) w h g = g a w h
  continue-Ends f (err e) w h g = h

pub throw-Ends :
    {A : Type 0} (Q : A → World → Type 0) (E : World → Type 0) (e : Failure) (w : World)
    → E w
    → Ends Q E (throw e w)
unfolding Ends
throw-Ends Q E e w h = h

pub pure-Ends :
    {A : Type 0} (Q : A → World → Type 0) (E : World → Type 0) (x : A) (w : World)
    → Q x w
    → Ends Q E (pure x w)
unfolding Ends
pure-Ends Q E x w h = h

-- One action and then another.
pub then-Ends :
    {A B : Type 0} (Q E' : World → Type 0) (R : B → World → Type 0) (E : World → Type 0)
    (m : Action A) (n : Action B) (w : World)
    → Ends (λ _. Q) E' (m w)
    → ((v : World) → E' v → E v)
    → ((v : World) → Q v → Ends R E (n v))
    → Ends R E ((m >> n) w)
unfolding Ends
then-Ends {A = A} Q E' R E m n w h weaker g = by_result (m w).0 h
  where
    by_result :
        (r : Result Failure A)
        → Ends (λ _. Q) E' (r, (m w).1)
        → Ends R E (continue (λ _. n) r (m w).1)
    by_result (ok a) k = g (m w).1 k
    by_result (err e) k = weaker (m w).1 k

-- The handler of `catch` starts in what the body has left.
pub catch-Ends :
    {A : Type 0} (Q : A → World → Type 0) (E : World → Type 0) (m : Action A)
    (h : Failure → Action A) (w : World)
    → Ends Q E (m w)
    → ((e : Thrown) (v : World) → E v → Ends Q E (h (raised e) v))
    → Ends Q E (catch_failure m h w)
unfolding Ends
catch-Ends {A = A} Q E m h w k g = by_result (m w).0 k
  where
    by_result : (r : Result Failure A) → Ends Q E (r, (m w).1) → Ends Q E (on_failure h r (m w).1)
    by_result (ok a) j = j
    by_result (err (raised e)) j = g e (m w).1 j
    by_result (err crashed) j = j

pub Ends-map :
    {A : Type 0} (Q R : A → World → Type 0) (E' E : World → Type 0) (r : Result Failure A × World)
    → ((a : A) (v : World) → Q a v → R a v)
    → ((v : World) → E' v → E v)
    → Ends Q E' r
    → Ends R E r
unfolding Ends
Ends-map {A = A} Q R E' E r g f h = by_result r.0 h
  where
    by_result : (a : Result Failure A) → Ends Q E' (a, r.1) → Ends R E (a, r.1)
    by_result (ok a) k = g a r.1 k
    by_result (err e) k = f r.1 k

pub Ends-fails :
    {A : Type 0} (Q : A → World → Type 0) (E' E : World → Type 0) (r : Result Failure A × World)
    → ((v : World) → E' v → E v)
    → Ends Q E' r
    → Ends Q E r
Ends-fails Q E' E r = Ends-map Q Q E' E r (λ a v k. k)

pub if-Ends :
    {A : Type 0} (Q : A → World → Type 0) (E : World → Type 0) (b : Bool)
    (r q : Result Failure A × World)
    → (b ≡ true → Ends Q E r)
    → (b ≡ false → Ends Q E q)
    → Ends Q E (if b then r else q)
if-Ends Q E true r q f g = f refl
if-Ends Q E false r q f g = g refl

-- What a change leaves if it does not throw.
abbrev pub Settled : (World → Type 0) → Result Thrown World → Type 0
Settled Q r = elim r [ ok after ↦ Q after | err e ↦ Unit {0} ]

-- A call that makes a change: what holds before it holds if it fails.
pub perform-Ends :
    (Q E : World → Type 0) (f : World → Result Thrown World) (w : World)
    → E (record w { outcomes = later w.outcomes })
    → Settled Q (f (record w { outcomes = later w.outcomes }))
    → Ends (λ _. Q) E (perform f w)
unfolding perform Ends
perform-Ends Q E f w before after = by_outcome (next w.outcomes)
  where
    v : World
    v = record w { outcomes = later w.outcomes }

    by_change : (r : Result Thrown World) → Settled Q r → Ends (λ (_ : Unit {0}). Q) E (settled v r)
    by_change (ok w') h = h
    by_change (err e) h = before

    by_outcome : (o : Outcome) → Ends (λ (_ : Unit {0}). Q) E (on_outcome o f v)
    by_outcome succeeds = by_change (f v) after
    by_outcome (fails e) = before
    by_outcome crashes = before

-- A change of the database keeps what holds of the files.
pub on_db-keeps :
    (F : List Entry → Type 0) (f : Database → Database) (w : World)
    → F w.files
    → Ends (λ _ v. F v.files) (λ v. F v.files) (on_db f w)
unfolding on_db
on_db-keeps F f w h = perform-Ends (λ v. F v.files) (λ v. F v.files) _ w h h
