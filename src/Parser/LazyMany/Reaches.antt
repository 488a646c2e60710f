-- ===== src/Parser/LazyMany/Reaches.antt =====
-- Repeated successful calls of a parser with state, as a relation.
use hprof_slurp.Prelude.{ℕ, ◌<◌, ◌≡◌, refl, ◌∙◌, List, [], ◌∷◌, ◌++◌, length}
use mathlib.Core.Path.{subst₂}
use hprof_slurp.Nom.{Bytes, Parser, IResult, ok, incomplete, panicked, size, Needed}
use hprof_slurp.Nom.Streams.{Streams, Grows, reads, waits, panics, Waits, wait}

-- A successful call takes a byte at least.
pub record Takes {A : Type 0} (p : Parser A) : Type 0 where
  pub at : (i : Bytes) {r : Bytes} {a : A} → p i ≡ ok r a → length r < length i

pub Waits-ne-ok : {A : Type 0} {x : IResult A} {r : Bytes} {a : A} → Waits x → x ≡ ok r a → ⊥
Waits-ne-ok (wait n h) e = cc

-- What `Streams` says of a call whose result is known.
module _ {A : Type 0} {p : Parser A} (sp : Streams p) where
  ok_of_Grows :
      {i r : Bytes} {a : A} {x : IResult A} (more : Bytes)
      → Grows i (λ t. p (i ++ t)) x
      → x ≡ ok r a
      → p (i ++ more) ≡ ok (r ++ more) a
  ok_of_Grows more (reads c e k) q = k more ∙ cc
  ok_of_Grows more (waits n h k) q = cc
  ok_of_Grows more (panics k) q = cc

  pub ok-append :
      (i more : Bytes) {r : Bytes} {a : A} → p i ≡ ok r a → p (i ++ more) ≡ ok (r ++ more) a
  ok-append i more q = ok_of_Grows more (sp.at i) q

  front_of_Grows :
      {i r : Bytes} {a : A} {later : Parser A} {x : IResult A}
      → Grows i later x
      → x ≡ ok r a
      → (c : Bytes) × (i ≡ c ++ r)
  front_of_Grows (reads c e k) q = (c, cc)
  front_of_Grows (waits n h k) q = cc
  front_of_Grows (panics k) q = cc

  pub Streams-front : (i : Bytes) {r : Bytes} {a : A} → p i ≡ ok r a → (c : Bytes) × (i ≡ c ++ r)
  Streams-front i q = front_of_Grows (sp.at i) q

  panicked_of_Grows :
      {i : Bytes} {x : IResult A} (more : Bytes)
      → Grows i (λ t. p (i ++ t)) x
      → x ≡ panicked
      → p (i ++ more) ≡ panicked
  panicked_of_Grows more (reads c e k) q = cc
  panicked_of_Grows more (waits n h k) q = cc
  panicked_of_Grows more (panics k) q = k more

  pub panicked-append : (i more : Bytes) → p i ≡ panicked → p (i ++ more) ≡ panicked
  panicked-append i more q = panicked_of_Grows more (sp.at i) q

  Waits-of_Grows :
      {i : Bytes} {n : Needed} {x : IResult A}
      → Grows i (λ t. p (i ++ t)) x
      → x ≡ incomplete n
      → (k : ℕ) × (n ≡ size k)
        × (0 < k)
        × ((more : Bytes) → length more < k → Waits (p (i ++ more)))
  Waits-of_Grows (reads c e k) q = cc
  Waits-of_Grows (waits n h k) q = (n, cc, h, k)
  Waits-of_Grows (panics k) q = cc

  pub incomplete-append :
      (i : Bytes) {n : Needed}
      → p i ≡ incomplete n
      → (k : ℕ) × (n ≡ size k)
        × (0 < k)
        × ((more : Bytes) → length more < k → Waits (p (i ++ more)))
  incomplete-append i q = Waits-of_Grows (sp.at i) q

module _ {S O : Type 0} (f : S → Parser (O × S)) where
  -- From state `s` on the input `i` the calls give `os`, and end in `s'` before `rest`.
  pub data Reaches : S → Bytes → List O → S → Bytes → Type 0 where
    stop : {s : S} {i : Bytes} → Reaches s i [] s i
    more :
        {s : S} {i i1 rest : Bytes} {o : O} {s1 s' : S} {os : List O}
        → f s i ≡ ok i1 (o, s1)
        → Reaches s1 i1 os s' rest
        → Reaches s i (o ∷ os) s' rest

  -- No call is left to make.
  abbrev pub IsStuck : S → Bytes → Type 0
  IsStuck s i = (r : Bytes) (o : O) (s' : S) → f s i ≡ ok r (o, s') → ⊥

module _ {S O : Type 0} {f : S → Parser (O × S)} where
  pub Reaches-trans :
      {s t u : S} {i j k : Bytes} {os ps : List O}
      → Reaches f s i os t j
      → Reaches f t j ps u k
      → Reaches f s i (os ++ ps) u k
  Reaches-trans stop r = r
  Reaches-trans (more e q) r = more e (Reaches-trans q r)

  -- Calls that succeed on a front of the input succeed on all of it.
  pub Reaches-append :
      ((s : S) → Streams (f s))
      → (t : Bytes) {s s' : S} {i rest : Bytes} {os : List O} → Reaches f s i os s' rest
      → Reaches f s (i ++ t) os s' (rest ++ t)
  Reaches-append sf t stop = stop
  Reaches-append sf t (more {s = s} {i = i} e q) =
      more (ok-append (sf s) i t e) (Reaches-append sf t q)

  Reaches-cast :
      {s s1 u : S} {i i1 k : Bytes} {os : List O}
      → s ≡ s1
      → i ≡ i1
      → Reaches f s i os u k
      → Reaches f s1 i1 os u k
  Reaches-cast {u} {k} {os} p q r = subst₂ (λ s i. Reaches f s i os u k) p q r

  -- A run that goes on until no call is left passes through every shorter run.
  pub Reaches-suffix :
      {s t u : S} {i j k : Bytes} {os ps : List O}
      → Reaches f s i os t j
      → Reaches f s i ps u k
      → IsStuck f u k
      → (qs : List O) × (ps ≡ os ++ qs) × Reaches f t j qs u k
  Reaches-suffix {ps = ps} stop r h = (ps, refl, r)
  Reaches-suffix (more e q) stop h = absurd (h _ _ _ e)
  Reaches-suffix (more {o = o} e q) (more {os = os'} e' r) h =
      let (qs, eq, rest) = Reaches-suffix q (Reaches-cast (cc (e, e')) (cc (e, e')) r) h in
      (qs, cc (e, e', eq), rest)
