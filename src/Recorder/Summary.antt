-- ===== src/Recorder/Summary.antt =====
-- What a map of the captured state holds under a key, as a summary of the records that came in.
use hprof_slurp.Prelude.{
  ◌≡◌, refl, sym, ◌∙◌, ap, Bool, Option, none, some, List, [], ◌∷◌, ◌++◌, append_assoc, append-nil,
  if◌then◌else◌, Bool-cases, inl, inr, subst,
}
use hprof_slurp.Recorder.AHashMap.{Key, AHashMap, get, upsert, get-upsert, get-upsert_other}
use hprof_slurp.Recorder.State.{Captured}
use hprof_slurp.Recorder.Events.{Event, capture, captures}

abbrev pub when : {A : Type 0} → Bool → A → Option A
when b a = if b then some a else none

abbrev cons_if : {A : Type 0} → Option A → List A → List A
cons_if none xs = xs
cons_if (some x) xs = x ∷ xs

-- What a selection takes from the events, in order.
abbrev pub pick : {A : Type 0} → (Event → Option A) → List Event → List A
pick sel [] = []
pick sel (e ∷ es) = cons_if (sel e) (pick sel es)

abbrev pub put : {A V : Type 0} → (A → Option V → V) → Option A → Option V → Option V
put f none old = old
put f (some a) old = some (f a old)

pub get-upsert-put :
    {K V A : Type 0} (key : Key K) (j k : K) (f : A → Option V → V) (a : A) (m : AHashMap K V)
    → get key k (upsert key j (f a) m) ≡ put f (when (key.same j k) a) (get key k m)
get-upsert-put key j k f a m = elim (Bool-cases (key.same j k)) [
  | inl e ↦ rw e (
      subst (λ i. get key k (upsert key i (f a) m) ≡ some (f a (get key k m)))
        (sym (key.same_sound j k e)) (get-upsert key k (f a) m))
  | inr e ↦ rw e (get-upsert_other key k j (f a) m e)
]

cons_if-append :
    {A : Type 0} (o : Option A) (xs ys : List A) → (xs ++ cons_if o []) ++ ys ≡ xs ++ cons_if o ys
cons_if-append none xs ys = rw append-nil refl
cons_if-append (some a) xs ys = append_assoc xs (a ∷ []) ys

-- A value that each event changes by `f` if the selection takes something from it is, in the end, a
-- summary of what was taken.
module _ {V A : Type 0} (value : Captured → Option V) (Valid : Captured → Type 0)
    (sel : Event → Option A) (summary : List A → Option V) (f : A → Option V → V)
    (step : (c : Captured) (e : Event) → Valid c → value (capture c e) ≡ put f (sel e) (value c))
    (keep : (c : Captured) (e : Event) → Valid c → Valid (capture c e))
    (grow : (xs : List A) (a : A) → summary (xs ++ a ∷ []) ≡ some (f a (summary xs))) where
  put_summary : (o : Option A) (xs : List A) → put f o (summary xs) ≡ summary (xs ++ cons_if o [])
  put_summary none xs = rw append-nil refl
  put_summary (some a) xs = sym (grow xs a)

  step_summary :
      (c : Captured) (e : Event) (xs : List A)
      → Valid c
      → value c ≡ summary xs
      → value (capture c e) ≡ summary (xs ++ cons_if (sel e) [])
  step_summary c e xs v h = step c e v ∙ ap (put f (sel e)) h ∙ put_summary (sel e) xs

  pub captures_summary :
      (c : Captured) (es : List Event) (xs : List A)
      → Valid c
      → value c ≡ summary xs
      → value (captures c es) ≡ summary (xs ++ pick sel es)
  captures_summary c [] xs v h = rw append-nil h
  captures_summary c (e ∷ es) xs v h = rw (sym (cons_if-append (sel e) xs (pick sel es))) (
      captures_summary (capture c e) es (xs ++ cons_if (sel e) []) (keep c e v)
        (step_summary c e xs v h))
