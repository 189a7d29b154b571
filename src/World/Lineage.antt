-- ===== src/World/Lineage.antt =====
-- The histories of frozen revisions of runtime/src/human_cos/world: which revision is frozen, and what
-- the last one of a history says about the others.
use human_cos_fft1_trial.Prelude.{
  nat_eq, string_eq, bool_eq, option_eq, list_eq, pair_eq, !=_false_iff, >>=-eq-returned, All, Eq,
  List, Memᴰ, Option, String, [], ap, arith, both_iff, false, is_some, length, none, raises_iff,
  refl, returned, returned-injective, some, some-injective, subst, sym, ℕ, ◌!=◌, ◌+◌, ◌||◌, ◌↔◌,
  ◌∙◌, ◌∷◌, ◌≡◌,
}
use human_cos_fft1_trial.World.Revision.{
  Frozen, RevisionContract, assert_integrity, check_parent, freeze,
}

both_same : {A B : Type 0} {a a' : A} {b b' : B} → a ≡ a' → b ≡ b' → ◌≡◌ {A = A × B} (a, b) (a', b')
both_same e f = cc

cons_same : {A : Type 0} {x y : A} {xs ys : List A} → x ≡ y → xs ≡ ys → (x ∷ xs) ≡ (y ∷ ys)
cons_same e f = cc

module _ {Payload Identity E : Type 0} ⦃e : Eq Identity⦄
    (contract : RevisionContract Payload Identity E) (sha256 : Payload → String) where
  open contract use {identity, revision, parent_hash, check}

  abbrev pub IsIntact : Frozen Payload → Type 0
  IsIntact snapshot =
      (snapshot.hash ≡ sha256 snapshot.payload) × (check snapshot.payload ≡ returned tt)

  -- The first revision has no parent; a later one continues an intact parent by one.
  abbrev pub FitsParent : Payload → Option (Frozen Payload) → Type 0
  FitsParent payload none = (revision payload ≡ 1) × (parent_hash payload ≡ none)
  FitsParent payload (some parent) =
      IsIntact parent
      × (identity payload ≡ identity parent.payload)
      × (revision payload ≡ revision parent.payload + 1)
      × (parent_hash payload ≡ some parent.hash)

  integrity_iff :
      (snapshot : Frozen Payload)
      → (assert_integrity contract sha256 snapshot ≡ returned tt) ↔ IsIntact snapshot
  unfolding assert_integrity
  integrity_iff snapshot =
      both_iff (raises_iff _ (!=_false_iff snapshot.hash (sha256 snapshot.payload)))
        (λ h. h, λ h. h)

  first_iff :
      (n : ℕ) (parent : Option String)
      → ((n != 1 || is_some parent) ≡ false) ↔ (n ≡ 1) × (parent ≡ none)
  first_iff n none =
      let one = !=_false_iff n 1 in
      (λ h. (one.0 (ground arith), refl), λ h. let t = one.1 h.0 in ground arith)
  first_iff n (some hash) = (λ h. absurd (ground arith), λ h. cc)

  check_parent_iff :
      (payload : Payload) (parent : Option (Frozen Payload))
      → (check_parent contract sha256 payload parent ≡ returned tt) ↔ FitsParent payload parent
  unfolding check_parent
  check_parent_iff payload none = raises_iff _ (first_iff (revision payload) (parent_hash payload))
  check_parent_iff payload (some parent) =
      let all = both_iff (integrity_iff parent) (
        both_iff (raises_iff _ (!=_false_iff (identity payload) (identity parent.payload))) (
          both_iff (raises_iff _ (!=_false_iff (revision payload) (revision parent.payload + 1)))
            (raises_iff _ (!=_false_iff (parent_hash payload) (some parent.hash))))) in
      (λ h. let (i, (s, (r, p))) = all.0 h in (i, s, r, p), λ (i, s, r, p). all.1 (i, (s, (r, p))))

  -- A payload is frozen, and always with itself and its hash, exactly when it fits its parent and
  -- passes the checks of its contract. Without a parent it fits as revision 1 that names no parent;
  -- with one, when that is intact, has the same identity, the revision below, and the hash that the
  -- payload names.
  pub freeze_iff :
      (payload : Payload) (parent : Option (Frozen Payload)) (snapshot : Frozen Payload)
      → (freeze contract sha256 payload parent ≡ returned snapshot)
        ↔ FitsParent payload parent
          × (check payload ≡ returned tt)
          × (snapshot ≡ record { payload = payload; hash = sha256 payload })
  unfolding freeze
  freeze_iff payload parent snapshot =
      let fits = check_parent_iff payload parent in
      let intact = integrity_iff (record { payload = payload; hash = sha256 payload }) in
      (
        λ h.
            let (u, fitting, rest) =
              >>=-eq-returned (check_parent contract sha256 payload parent) _ h in
            let (v, sound, end) = >>=-eq-returned (assert_integrity contract sha256 _) _ rest in
            (fits.0 fitting, (intact.0 sound).1, sym (returned-injective end)),
        λ (fitting, sound, same).
            let first = fits.1 fitting in
            let second = intact.1 (refl, sound) in rw (first, second) (ap returned (sym same)),
      )

  no_parent :
      {s t : Frozen Payload} {hash : String}
      → s ≡ t
      → parent_hash s.payload ≡ none
      → parent_hash t.payload ≡ some hash
      → ⊥
  no_parent same orphan parent = cc (ap (λ s. parent_hash s.payload) same)

  -- The revisions of one record, the last one first.
  pub data History : List (Frozen Payload) → Type 0 where
    root :
        (payload : Payload) {first : Frozen Payload}
        → freeze contract sha256 payload none ≡ returned first
        → History (first ∷ [])
    revise :
        {parent child : Frozen Payload} {older : List (Frozen Payload)}
        → History (parent ∷ older)
        → (payload : Payload) → freeze contract sha256 payload (some parent) ≡ returned child
        → History (child ∷ parent ∷ older)

  root_fits :
      (payload : Payload) {first : Frozen Payload}
      → freeze contract sha256 payload none ≡ returned first
      → FitsParent first.payload none × IsIntact first
  root_fits payload {first} h =
      let (fits, sound, same) = (freeze_iff payload none first).0 h in
      subst (λ s. FitsParent s.payload none × IsIntact s) (sym same) (fits, (refl, sound))

  child_fits :
      (payload : Payload) {parent child : Frozen Payload}
      → freeze contract sha256 payload (some parent) ≡ returned child
      → FitsParent child.payload (some parent) × IsIntact child
  child_fits payload {parent} {child} h =
      let (fits, sound, same) = (freeze_iff payload (some parent) child).0 h in
      subst (λ s. FitsParent s.payload (some parent) × IsIntact s) (sym same) (fits, (refl, sound))

  carry :
      {i j : Identity} (snapshots : List (Frozen Payload))
      → i ≡ j
      → All (λ s. IsIntact s × (identity s.payload ≡ j)) snapshots
      → All (λ s. IsIntact s × (identity s.payload ≡ i)) snapshots
  carry snapshots same olds =
      subst (λ k. All (λ s. IsIntact s × (identity s.payload ≡ k)) snapshots) (sym same) olds

  -- In a history the last revision is numbered by the length of it, all revisions are intact, and
  -- all have the identity of the last.
  pub History-numbered :
      {last : Frozen Payload} {older : List (Frozen Payload)}
      → History (last ∷ older)
      → (revision last.payload ≡ length (last ∷ older))
        × All (λ s. IsIntact s × (identity s.payload ≡ identity last.payload)) (last ∷ older)
  History-numbered (root p h) = let (fits, intact) = root_fits p h in (fits.0, ((intact, refl), tt))
  History-numbered {last} (revise {parent} {older} history p h) =
      let ((_, same, increment, _), intact) = child_fits p h in
      let (numbered, olds) = History-numbered history in
      (increment ∙ (omega (arith, numbered)), ((intact, refl), carry (parent ∷ older) same olds))

  -- No payload of the first history has the hash of another payload of the second.
  abbrev pub NoCollision : List (Frozen Payload) → List (Frozen Payload) → Type 0
  NoCollision snapshots others =
      (s t : Frozen Payload)
      → Memᴰ s snapshots
      → Memᴰ t others
      → sha256 s.payload ≡ sha256 t.payload
      → s.payload ≡ t.payload

  same_snapshot :
      {s t : Frozen Payload} {older other : List (Frozen Payload)}
      → NoCollision (s ∷ older) (t ∷ other)
      → IsIntact s
      → IsIntact t
      → s.hash ≡ t.hash
      → s ≡ t
  same_snapshot {s} {t} distinct (hs, _) (ht, _) same =
      let payloads = distinct s t (Memᴰ.head refl) (Memᴰ.head refl) (sym hs ∙ same ∙ ht) in
      ap (λ (p, h). record { payload = p; hash = h }) (both_same payloads same)

  -- When no two different payloads of two histories have the same hash, the hash of the last revision
  -- determines everything before it: two histories that end in the same hash are the same snapshots.
  pub History-determined :
      {s t : Frozen Payload} {older other : List (Frozen Payload)}
      → History (s ∷ older)
      → History (t ∷ other)
      → NoCollision (s ∷ older) (t ∷ other)
      → s.hash ≡ t.hash
      → (s ∷ older) ≡ (t ∷ other)
  History-determined (root p h) (root q k) distinct same =
      ap (λ s. s ∷ []) (same_snapshot distinct (root_fits p h).1 (root_fits q k).1 same)
  History-determined (root p h) (revise history q k) distinct same =
      let ((_, orphan), intact) = root_fits p h in
      let ((_, _, _, parent), intact') = child_fits q k in
      absurd (no_parent (same_snapshot distinct intact intact' same) orphan parent)
  History-determined (revise history q k) (root p h) distinct same =
      let ((_, orphan), intact) = root_fits p h in
      let ((_, _, _, parent), intact') = child_fits q k in
      absurd (no_parent (sym (same_snapshot distinct intact' intact same)) orphan parent)
  History-determined (revise history p h) (revise history' q k) distinct same =
      let ((_, _, _, parent), intact) = child_fits p h in
      let ((_, _, _, parent'), intact') = child_fits q k in
      let child = same_snapshot distinct intact intact' same in
      let hashes =
        some-injective _ _ (sym parent ∙ ap (λ s. parent_hash s.payload) child ∙ parent') in
      cons_same child (
        History-determined history history' (λ s t m n. distinct s t (Memᴰ.tail m) (Memᴰ.tail n))
          hashes)
