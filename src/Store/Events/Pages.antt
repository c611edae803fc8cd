-- ===== src/Store/Events/Pages.antt =====
-- crates/robine-store-sqlite/src/lib.rs: a consumer that reads the journal in pages misses no event.
use robine.Prelude.{
  ℕ, zero, suc, ◌+◌, ◌≤◌, ◌<◌, ◌≡◌, refl, sym, ap, subst, ◌∙◌, true, false, List, [], ◌∷◌, ◌++◌,
  ltb, arith, Bool-cases, inl, inr, drop,
}
use robine.Prelude.Tables.{where_rows, take, insert_ordered, order_rows}
use robine.Domain.Model.{EventEnvelope}
use robine.Store.{Store}
use robine.Store.Events.{by_sequence, events_after}
use robine.Store.Consistent.{IsNumbered}

take-nil {ℓ} : {A : Type ℓ} (n : ℕ) → take {A = A} n [] ≡ []
take-nil zero = refl
take-nil (suc n) = refl

take-add {ℓ} :
    {A : Type ℓ} (n m : ℕ) (xs : List A) → take (n + m) xs ≡ take n xs ++ take m (drop n xs)
take-add zero m xs = ap (λ k. take k xs) (omega arith)
take-add (suc n) m [] = take-nil (suc n + m) ∙ sym (take-nil m)
take-add (suc n) m (x ∷ xs) =
    let same : suc (n + m) ≡ suc n + m = omega arith in
    subst (λ k. take k (x ∷ xs) ≡ x ∷ take n xs ++ take m (drop n xs)) same
      (ap (λ l. x ∷ l) (take-add n m xs))

module _ {F J : Type 0} where
  -- The sequence that the consumer has come to, after a page
  abbrev pub page_last : ℕ → List (EventEnvelope F J) → ℕ
  page_last after [] = after
  page_last after (e ∷ events) = page_last e.sequence events

  -- the events after a sequence
  abbrev later : ℕ → List (EventEnvelope F J) → List (EventEnvelope F J)
  later after events = where_rows (λ e. ltb after e.sequence) events

  IsNumbered-le :
      (low : ℕ) (events : List (EventEnvelope F J)) (last : ℕ)
      → IsNumbered low events last
      → low ≤ last
  IsNumbered-le low [] last h = h
  IsNumbered-le low (e ∷ events) last h =
      omega (arith, h.0, IsNumbered-le e.sequence events last h.1)

  -- Events that are numbered already stand in order.
  order-IsNumbered :
      (low : ℕ) (events : List (EventEnvelope F J)) (last : ℕ)
      → IsNumbered low events last
      → order_rows by_sequence events ≡ events
  order-IsNumbered low [] last h = refl
  order-IsNumbered low (e ∷ events) last h =
      ap (insert_ordered by_sequence e) (order-IsNumbered e.sequence events last h.1)
      ∙ ahead events h.1
    where
      ahead :
          (events : List (EventEnvelope F J))
          → IsNumbered e.sequence events last
          → insert_ordered by_sequence e events ≡ e ∷ events
      ahead [] k = refl
      ahead (x ∷ events) k = ground (arith, k.0)

  later-IsNumbered :
      (after low : ℕ) (events : List (EventEnvelope F J)) (last : ℕ)
      → after ≤ last
      → IsNumbered low events last
      → IsNumbered after (later after events) last
  later-IsNumbered after low [] last le h = le
  later-IsNumbered after low (e ∷ events) last le h = elim (Bool-cases (ltb after e.sequence)) [
    | inl t ↦ rw t (ground (arith, t), later-all e.sequence events h.1 (ground (arith, t)))
    | inr t ↦ rw t (later-IsNumbered after e.sequence events last le h.1)
  ]
    where
      later-all :
          (low : ℕ) (events : List (EventEnvelope F J))
          → IsNumbered low events last
          → after < low
          → IsNumbered low (later after events) last
      later-all low [] k lt = k
      later-all low (x ∷ events) k lt =
          rw (above low x k.0 lt) (k.0, later-all x.sequence events k.1 (omega (arith, k.0, lt)))
        where
          above :
              (low : ℕ) (x : EventEnvelope F J)
              → low < x.sequence
              → after < low
              → ltb after x.sequence ≡ true
          above low x k lt = ground (arith, k, lt)

  later-later :
      (p after : ℕ) (events : List (EventEnvelope F J))
      → after ≤ p
      → later p (later after events) ≡ later p events
  later-later p after [] le = refl
  later-later p after (e ∷ events) le = ground (arith, later-later p after events le)

  -- All events are after a sequence that is not above their bound.
  later-same :
      (after low : ℕ) (events : List (EventEnvelope F J)) (last : ℕ)
      → after ≤ low
      → IsNumbered low events last
      → later after events ≡ events
  later-same after low [] last le h = refl
  later-same after low (e ∷ events) last le h =
      rw (above le h.0)
        (ap (λ l. e ∷ l) (later-same after e.sequence events last (omega (arith, le, h.0)) h.1))
    where
      above : after ≤ low → low < e.sequence → ltb after e.sequence ≡ true
      above le lt = ground (arith, le, lt)

  page_last-le :
      (low n : ℕ) (events : List (EventEnvelope F J)) (last : ℕ)
      → IsNumbered low events last
      → low ≤ page_last low (take n events)
  page_last-le low zero events last h = omega arith
  page_last-le low (suc n) [] last h = omega arith
  page_last-le low (suc n) (e ∷ events) last h =
      omega (arith, h.0, page_last-le e.sequence n events last h.1)

  page_last-last :
      (low n : ℕ) (events : List (EventEnvelope F J)) (last : ℕ)
      → IsNumbered low events last
      → page_last low (take n events) ≤ last
  page_last-last low zero events last h = IsNumbered-le low events last h
  page_last-last low (suc n) [] last h = h
  page_last-last low (suc n) (e ∷ events) last h = page_last-last e.sequence n events last h.1

  -- After a page come the events behind it.
  later-page :
      (low n : ℕ) (events : List (EventEnvelope F J)) (last : ℕ)
      → IsNumbered low events last
      → later (page_last low (take n events)) events ≡ drop n events
  later-page low zero events last h = later-same low low events last (omega arith) h
  later-page low (suc n) [] last h = refl
  later-page low (suc n) (e ∷ events) last h =
      let le = page_last-le e.sequence n events last h.1 in
      rw (behind le) (later-page e.sequence n events last h.1)
    where
      behind :
          e.sequence ≤ page_last e.sequence (take n events)
          → ltb (page_last e.sequence (take n events)) e.sequence ≡ false
      behind le = ground (arith, le)

  numbered-pages :
      (after n m : ℕ) (events : List (EventEnvelope F J)) (last : ℕ)
      → after ≤ last
      → IsNumbered 0 events last
      → take (n + m) (later after events)
        ≡ take n (later after events)
          ++ take m (later (page_last after (take n (later after events))) events)
  numbered-pages after n m events last le h =
      let rest = later after events in
      let numbered = later-IsNumbered after 0 events last le h in
      let behind =
        sym (
          later-later (page_last after (take n rest)) after events
            (page_last-le after n rest last numbered))
        ∙ later-page after n rest last numbered in
      take-add n m rest ∙ ap (λ l. take n rest ++ take m l) (sym behind)

  ordered :
      (after limit : ℕ) (s : Store F J)
      → after ≤ s.last_sequence
      → IsNumbered 0 s.events s.last_sequence
      → events_after after limit s ≡ take limit (later after s.events)
  unfolding events_after
  ordered after limit s le h = ap (take limit) (
      order-IsNumbered after (later after s.events) s.last_sequence
        (later-IsNumbered after 0 s.events s.last_sequence le h))

  -- If the sequences of the events increase up to the last number given out, and the sequence that a
  -- consumer has read up to is not above that, then a page of `events_after`, and then a page after the
  -- last event of it, together have the events of one page of both lengths: none is missed, none comes
  -- twice.
  pub events_after-pages :
      (after n m : ℕ) (s : Store F J)
      → after ≤ s.last_sequence
      → IsNumbered 0 s.events s.last_sequence
      → events_after after (n + m) s
        ≡ events_after after n s ++ events_after (page_last after (events_after after n s)) m s
  events_after-pages after n m s le h =
      let page = take n (later after s.events) in
      let numbered = later-IsNumbered after 0 s.events s.last_sequence le h in
      let le' = page_last-last after n (later after s.events) s.last_sequence numbered in
      subst (λ l. events_after after (n + m) s ≡ l ++ events_after (page_last after l) m s)
        (sym (ordered after n s le h))
        (ordered after (n + m) s le h
          ∙ numbered-pages after n m s.events s.last_sequence le h
          ∙ ap (λ l. page ++ l) (sym (ordered (page_last after page) m s le' h)))
