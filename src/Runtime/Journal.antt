-- ===== src/Runtime/Journal.antt =====
-- Actions of code that writes to a store: a call may raise, and what was written before a raise
-- stays written. The journal is the list of what was written, the oldest first.
use mathlib.Core.List.{append-nil, append_assoc, map-append}
use human_cos_fft1_trial.Prelude.{
  nat_eq, string_eq, bool_eq, option_eq, list_eq, pair_eq, List, Outcome, Outcome-cases, [], ap,
  inl, inr, map, raised, raised_ne_returned, refl, returned, sym, ◌++◌, ◌∙◌, ◌∷◌, ◌≡◌,
}

abbrev pub Action : Type 0 → Type 0 → Type 0 → Type 0
Action W E A = List W → Outcome E A × List W

module _ {W E A : Type 0} where
  unfoldable pub lift : Outcome E A → Action W E A
  lift outcome journal = (outcome, journal)

  -- A call that the store answers by what was written so far, and that writes when it returns.
  unfoldable pub write : (List W → Outcome E A) → W → Action W E A
  write answer item journal = elim (answer journal) [
    | returned a ↦ (returned a, journal ++ (item ∷ []))
    | raised e ↦ (raised e, journal)
  ]

  -- A question that the store answers by what was written so far.
  unfoldable pub ask : (List W → Outcome E A) → Action W E A
  ask answer journal = (answer journal, journal)

  -- A value that is read off what was written so far.
  unfoldable pub read : (List W → A) → Action W E A
  read observe journal = (returned (observe journal), journal)

infixl 5 ◌>>=◌ ◌>>◌
unfoldable pub ◌>>=◌ : {W E A B : Type 0} → Action W E A → (A → Action W E B) → Action W E B
(m >>= f) journal =
    let (outcome, journal') = m journal in
    elim outcome [ returned a ↦ f a journal' | raised e ↦ (raised e, journal') ]

unfoldable pub ◌>>◌ : {W E B : Type 0} → Action W E (Unit {0}) → Action W E B → Action W E B
m >> k = m >>= λ _. k

-- Either list begins with the first.
abbrev pub IsPrefix : {A : Type 0} → List A → List A → Type 0
IsPrefix {A} xs ys = (rest : List A) × (xs ++ rest ≡ ys)

-- What an action writes, by kind: behind the journal, in the order of one of the scripts, of which
-- the result says which. It is all of that script when the action returns, and the beginning of one
-- when it raises.
pub record Emits {W E A K C : Type 0} (kind : W → K) (scripts : C → List K) (script_of : A → C)
    (m : Action W E A) : Type 0 where
  pub emitted :
      (journal : List W)
      → (items : List W) × ((m journal).1 ≡ journal ++ items)
        × ((c : C) × IsPrefix (map kind items) (scripts c)
            × ((a : A) → (m journal).0 ≡ returned a → map kind items ≡ scripts (script_of a)))

-- The one script.
abbrev pub only : {K : Type 0} → List K → Unit {0} → List K
only script _ = script

abbrev pub the_one : {A : Type 0} → A → Unit {0}
the_one _ = tt

module _ {W E A K : Type 0} (kind : W → K) where
  pub lift-Emits : (outcome : Outcome E A) → Emits kind (only []) the_one (lift outcome)
  unfolding lift
  lift-Emits outcome = record {
    emitted = λ journal. ([], sym (append-nil journal), (tt, ([], refl), λ a h. refl));
  }

  pub read-Emits : (observe : List W → A) → Emits {E = E} kind (only []) the_one (read observe)
  unfolding read
  read-Emits observe = record {
    emitted = λ journal. ([], sym (append-nil journal), (tt, ([], refl), λ a h. refl));
  }

  pub ask-Emits : (answer : List W → Outcome E A) → Emits kind (only []) the_one (ask answer)
  unfolding ask
  ask-Emits answer = record {
    emitted = λ journal. ([], sym (append-nil journal), (tt, ([], refl), λ a h. refl));
  }

  pub write-Emits :
      (answer : List W → Outcome E A) (item : W) {k : K}
      → kind item ≡ k
      → Emits kind (only (k ∷ [])) the_one (write answer item)
  unfolding write
  write-Emits answer item {k} same = record {
    emitted = λ journal. elim (Outcome-cases (answer journal)) [
      | inl (a, e) ↦
          rw (write, e)
            (item ∷ [], refl, (tt, ([], ap (λ k. k ∷ []) same), λ b h. ap (λ k. k ∷ []) same))
      | inr (error, e) ↦
          rw (write, e)
            (
              [],
              sym (append-nil journal),
              (tt, (k ∷ [], refl), λ b h. absurd (raised_ne_returned h)),
            )
    ];
  }

  -- An action with one script has one of several, when its results name that one.
  pub one_of-Emits :
      {C : Type 0} (scripts : C → List K) (script_of : A → C) (m : Action W E A) (c : C)
      → ((journal : List W) (a : A) → (m journal).0 ≡ returned a → script_of a ≡ c)
      → Emits kind (only (scripts c)) the_one m
      → Emits kind scripts script_of m
  one_of-Emits scripts script_of m c names h = record {
    emitted = λ journal.
        let (items, written, (_, begins, full)) = h.emitted journal in
        (items, written, (c, begins, λ a e. full a e ∙ ap scripts (sym (names journal a e))));
  }

  pub bind-Emits :
      {B C : Type 0} {s : List K} {t : C → List K} {script_of : B → C} (c : C) (m : Action W E A)
      (f : A → Action W E B)
      → Emits kind (only s) the_one m
      → ((a : A) → Emits kind t script_of (f a))
      → Emits kind (λ c. s ++ t c) script_of (m >>= f)
  unfolding ◌>>=◌
  bind-Emits {s} {t} c₀ m f first second = record {
    emitted = λ journal.
        let (xs, written, (_, (rest, p), full)) = first.emitted journal in
        elim (Outcome-cases (m journal).0) [
          | inl (a, e) ↦
              let (ys, more, (c, (rest', p'), full')) = (second a).emitted (m journal).1 in
              let all_of_it : map kind (xs ++ ys) ≡ s ++ map kind ys =
                map-append kind xs ys ∙ ap (λ zs. zs ++ map kind ys) (full a e) in
              rw (◌>>=◌, e)
                (
                  xs ++ ys,
                  more ∙ ap (λ zs. zs ++ ys) written ∙ append_assoc journal xs ys,
                  (
                    c,
                    (
                      rest',
                      ap (λ zs. zs ++ rest') all_of_it
                          ∙ append_assoc s _ rest'
                          ∙ ap (λ zs. s ++ zs) p',
                    ),
                    λ b h. all_of_it ∙ ap (λ zs. s ++ zs) (full' b h),
                  ),
                )
          | inr (error, e) ↦
              rw (◌>>=◌, e)
                (
                  xs,
                  written,
                  (
                    c₀,
                    (rest ++ t c₀, sym (append_assoc _ rest (t c₀)) ∙ ap (λ zs. zs ++ t c₀) p),
                    λ b h. absurd (raised_ne_returned h),
                  ),
                )
        ];
  }

-- What the parts of a sequence that returned gave.
pub bind-eq-returned :
    {W E A B : Type 0} (m : Action W E A) (f : A → Action W E B) (journal : List W) {b : B}
    → ((m >>= f) journal).0 ≡ returned b
    → (a : A) × ((m journal).0 ≡ returned a) × ((f a (m journal).1).0 ≡ returned b)
unfolding ◌>>=◌
bind-eq-returned m f journal h = elim (Outcome-cases (m journal).0) [
  | inl (a, e) ↦ (a, e, rw (◌>>=◌, e) at h)
  | inr (error, e) ↦ absurd (raised_ne_returned (rw (◌>>=◌, e) at h))
]
