-- ===== src/Http/Views.antt =====
-- src/proto-http.c: what an id finds after a watch is made, and after one has ended.
use knot_service_source.Common.{
  ℕ, ◌+◌, ◌^◌, ◌<◌, ◌≡◌, ◌≢◌, refl, sym, ◌∙◌, inl, inr, Bool-cases, Option-cases, Option, none,
  some, List, [], ◌∷◌, ◌++◌, lookup, lookup-erase_ne, if◌then◌else◌, ◌==◌, arith,
}
use knot_service_source.Http.Curl.{Curl}
use knot_service_source.Http.Driver.{holds}
use knot_service_source.Http.Watch.{ToFetch, State}
use knot_service_source.Http.Watched.{
  lookup-snoc, watch_of, Inv, started, ended, new_id, below_next, started-Inv, ended-Inv,
}

module _ (c : Curl) where
  -- What a watch holds, found through its parts.
  pub watch_of_live :
      (s : State c) (a i f : ℕ) (m : List (ℕ × ℕ))
      → s.ios a ≡ some (some i)
      → s.globals.timeouts ≡ holds m
      → lookup i m ≡ some f
      → watch_of c s a ≡ s.heap f
  unfolding watch_of
  watch_of_live s a i f m p q r = rw (p, q, r, watch_of) refl

  -- The parts that a watch is found through.
  pub watch_of-parts :
      (s : State c) (h : Inv c s) (a : ℕ) (v : ToFetch)
      → watch_of c s a ≡ some v
      → (i f : ℕ) × (s.ios a ≡ some (some i)) × (lookup i h.entries ≡ some f) × (s.heap f ≡ some v)
  unfolding watch_of
  watch_of-parts s h a v w = elim (Option-cases (s.ios a)) [
    | inl p ↦ ground (arith)
    | inr (none, p) ↦ ground (arith)
    | inr (some i, p) ↦ elim (Option-cases (lookup i h.entries)) [
      | inl q ↦ absurd (h.io_live a i p q)
      | inr (f, q) ↦ (i, f, p, q, sym (watch_of_live s a i f h.entries p h.table q) ∙ w)
    ]
  ]

  watch_of_gone : (s : State c) (a : ℕ) → s.ios a ≡ none → watch_of c s a ≡ none
  unfolding watch_of
  watch_of_gone s a p = rw (p, watch_of) refl

  watch_of_cut : (s : State c) (a : ℕ) → s.ios a ≡ some none → watch_of c s a ≡ none
  unfolding watch_of
  watch_of_cut s a p = rw (p, watch_of) refl

  -- Two states whose watch at `a` goes through the same parts to the same contents.
  watch_of_same :
      (s s' : State c) (h : Inv c s) (h' : Inv c s') (a : ℕ)
      → s'.ios a ≡ s.ios a
      → ((i f : ℕ)
          → s.ios a ≡ some (some i)
          → lookup i h.entries ≡ some f
          → (lookup i h'.entries ≡ some f) × (s'.heap f ≡ s.heap f))
      → watch_of c s' a ≡ watch_of c s a
  watch_of_same s s' h h' a e same = elim (Option-cases (s.ios a)) [
    | inl p ↦ watch_of_gone s' a (e ∙ p) ∙ sym (watch_of_gone s a p)
    | inr (none, p) ↦ watch_of_cut s' a (e ∙ p) ∙ sym (watch_of_cut s a p)
    | inr (some i, p) ↦ elim (Option-cases (lookup i h.entries)) [
      | inl q ↦ absurd (h.io_live a i p q)
      | inr (f, q) ↦
          let (q', cell) = same i f p q in
          watch_of_live s' a i f h'.entries (e ∙ p) h'.table q'
          ∙ cell
          ∙ sym (watch_of_live s a i f h.entries p h.table q)
    ]
  ]

  watch_of_left :
      (s : State c) (a : ℕ) (left : Option (Option ℕ))
      → s.ios a ≡ left
      → ((j : ℕ) → left ≢ some (some j))
      → watch_of c s a ≡ none
  watch_of_left s a none p gone = watch_of_gone s a p
  watch_of_left s a (some none) p gone = watch_of_cut s a p
  watch_of_left s a (some (some j)) p gone = absurd (gone j refl)

  pub watch_of-started :
      (s : State c) (h : Inv c s) (v : ToFetch) (a : ℕ) (w : c.World)
      → s.globals.next_timeout_id + 1 < 2 ^ 32
      → s.ios a ≡ none
      → (id : ℕ)
      → watch_of c (started c s h.entries v (some a) w) id
        ≡ (if id == a then some v else watch_of c s id)
  watch_of-started s h v a w small fresh id = elim (Bool-cases (id == a)) [
    | inl p ↦ rw (p) (
        watch_of_live s' id n s.next (h.entries ++ (n, s.next) ∷ []) (rw (p) refl) refl
          (lookup-snoc n n s.next h.entries (new_id c s h) ∙ ground arith)
        ∙ ground arith)
    | inr p ↦ rw (p) (
        watch_of_same s s' h (started-Inv c s h v a w small fresh) id (rw (p) refl) (λ i f e q. (
          ground (arith, lookup-snoc i n s.next h.entries (new_id c s h), h.ids i f),
          ground (arith, below_next c s h i f q),
        )))
  ]
    where
      n : ℕ
      n = s.globals.next_timeout_id

      s' : State c
      s' = started c s h.entries v (some a) w

  pub watch_of-ended :
      (s : State c) (h : Inv c s) (a i f : ℕ) (v : ToFetch) (left : Option (Option ℕ))
      → s.ios a ≡ some (some i)
      → lookup i h.entries ≡ some f
      → ((j : ℕ) → left ≢ some (some j))
      → (id : ℕ)
      → watch_of c
          (ended c (record s { ios = λ x. if x == a then left else s.ios x }) h.entries i f v)
          id
        ≡ (if id == a then none else watch_of c s id)
  watch_of-ended s h a i f v left io entry gone id = elim (Bool-cases (id == a)) [
    | inl p ↦ rw (p) (watch_of_left s' id left (rw (p) refl) gone)
    | inr p ↦ rw (p) (
        watch_of_same s s' h (ended-Inv c s h a i f v left io entry gone) id (rw (p) refl)
          (λ j e q r. (
            ground (arith, lookup-erase_ne j i h.entries, h.io_one id a i),
            ground (arith, h.one_each j i f, h.io_one id a i),
          )))
  ]
    where
      s' : State c
      s' = ended c (record s { ios = λ x. if x == a then left else s.ios x }) h.entries i f v
