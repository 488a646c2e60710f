-- ===== src/Parser/LazyMany/Maximal.antt =====
-- `lazy_many1` over a parser that keeps the promises of a stream: it makes every call that succeeds.
use hprof_slurp.Prelude.{
  ℕ, zero, suc, ◌<◌, ◌≡◌, refl, ◌∙◌, false, Option, some, List, [], ◌∷◌, ◌++◌, append_assoc,
  append-nil, length, arith,
}
use hprof_slurp.Nom.{Bytes, Parser, IResult, ok, incomplete, panicked, Needed}
use hprof_slurp.Nom.Streams.{Streams, Grows, reads, waits, panics}
use hprof_slurp.Parser.LazyMany.{Run, bytes_eq, many_loop, lazy_many1}
use hprof_slurp.Parser.LazyMany.Reaches.{Takes, Reaches, stop, more}

bytes_eq-shorter : (xs ys : Bytes) → length xs < length ys → bytes_eq xs ys ≡ false
bytes_eq-shorter [] [] h = elim h [ ]
bytes_eq-shorter [] (y ∷ ys) h = refl
bytes_eq-shorter (x ∷ xs) [] h = elim h [ ]
bytes_eq-shorter (x ∷ xs) (y ∷ ys) h = ground (arith, bytes_eq-shorter xs ys)

-- A stream parser has three outcomes.
data Called {A : Type 0} (x : IResult A) : Type 0 where
  called_ok : {r : Bytes} {a : A} → x ≡ ok r a → Called x
  called_incomplete : {n : Needed} → x ≡ incomplete n → Called x
  called_panicked : x ≡ panicked → Called x

Called-of_Grows :
    {A : Type 0} {i : Bytes} {later : Parser A} {x : IResult A} → Grows i later x → Called x
Called-of_Grows (reads c e k) = called_ok refl
Called-of_Grows (waits n h k) = called_incomplete refl
Called-of_Grows (panics k) = called_panicked refl

module _ {S O : Type 0} (f : S → Parser (O × S)) where
  -- The loop has stopped for want of input, or at a panic, after every call that succeeds.
  pub data Ends (s : S) (i : Bytes) (acc : List O) (run : Option (Run S O)) : Type 0 where
    finished :
        {os : List O} {s' : S} {rest : Bytes} {n : Needed}
        → Reaches f s i os s' rest
        → f s' rest ≡ incomplete n
        → run ≡ some (record { result = ok rest tt; state = s'; pooled_vec = acc ++ os })
        → Ends s i acc run
    crashed :
        {os : List O} {s' : S} {rest : Bytes}
        → Reaches f s i os s' rest
        → f s' rest ≡ panicked
        → run ≡ some (record { result = panicked; state = s'; pooled_vec = acc ++ os })
        → Ends s i acc run

  -- What `lazy_many1` leaves: nothing read yet and a wait, or the end of the loop.
  pub data Outcome (s : S) (i : Bytes) (acc : List O) (run : Option (Run S O)) : Type 0 where
    starved :
        {n : Needed}
        → f s i ≡ incomplete n
        → run ≡ some (record { result = incomplete n; state = s; pooled_vec = acc })
        → Outcome s i acc run
    looped : Ends s i acc run → Outcome s i acc run

module _ {S O : Type 0} {f : S → Parser (O × S)} (sf : (s : S) → Streams (f s))
    (tf : (s : S) → Takes (f s)) where
  Ends-more :
      {s s1 : S} {i i1 : Bytes} {o : O} (acc : List O) {run : Option (Run S O)}
      → f s i ≡ ok i1 (o, s1)
      → Ends f s1 i1 (acc ++ o ∷ []) run
      → Ends f s i acc run
  Ends-more acc e (finished q w r) = finished (more e q) w (r ∙ rw append_assoc)
  Ends-more acc e (crashed q w r) = crashed (more e q) w (r ∙ rw append_assoc)

  many_loop_step :
      (fuel : ℕ) (s : S) (i : Bytes) (acc : List O)
      → ((s1 : S) (i1 : Bytes) (acc1 : List O)
          → length i1 < fuel
          → Ends f s1 i1 acc1 (many_loop f fuel s1 i1 acc1))
      → length i < suc fuel
      → Called (f s i)
      → Ends f s i acc (many_loop f (suc fuel) s i acc)
  unfolding many_loop
  many_loop_step fuel s i acc ih h (called_ok {r} {a} e) =
      let shorter = (tf s).at i e in
      rw (e, many_loop, bytes_eq-shorter r i shorter)
        (Ends-more acc e (ih a.1 r (acc ++ a.0 ∷ []) (omega arith)))
  many_loop_step fuel s i acc ih h (called_incomplete e) =
      rw (e, many_loop) (finished stop e (rw append-nil))
  many_loop_step fuel s i acc ih h (called_panicked e) =
      rw (e, many_loop) (crashed stop e (rw append-nil))

  many_loop-Ends :
      (fuel : ℕ) (s : S) (i : Bytes) (acc : List O)
      → length i < fuel
      → Ends f s i acc (many_loop f fuel s i acc)
  many_loop-Ends zero s i acc h = absurd (omega arith)
  many_loop-Ends (suc fuel) s i acc h =
      many_loop_step fuel s i acc (many_loop-Ends fuel) h (Called-of_Grows ((sf s).at i))

  -- For a parser whose results later bytes do not change and that takes a byte with each element,
  -- `lazy_many1` never runs out of its fuel. It returns Incomplete when the first call does. Else it
  -- makes all calls that succeed, and adds their elements to the vector, in order, up to a call that
  -- lacks input, where it returns the rest, or one that panics.
  pub lazy_many1-Outcome :
      (s : S) (i : Bytes) (acc : List O) → Outcome f s i acc (lazy_many1 f s i acc)
  unfolding lazy_many1
  lazy_many1-Outcome s i acc = go (Called-of_Grows ((sf s).at i))
    where
      go : Called (f s i) → Outcome f s i acc (lazy_many1 f s i acc)
      go (called_ok {r} {a} e) =
          rw (e, lazy_many1)
            (looped (
              Ends-more acc e
                (many_loop-Ends (suc (length r)) a.1 r (acc ++ a.0 ∷ []) (omega arith))))
      go (called_incomplete e) = rw (e, lazy_many1) (starved e refl)
      go (called_panicked e) = rw (e, lazy_many1) (looped (crashed stop e (rw append-nil)))
